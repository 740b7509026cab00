-- ===== src/Base/Text/Laws.antt =====
-- What strings.Cut and strings.TrimSpace give back.
use Prim.Native.Char.{Char, code}
use Prim.Native.String as Str
use Prim.Native.String.{String}
use mathlib.Core.Path.{◌≡◌, refl, ◌∙◌, ap}
use mathlib.Core.Bool.{false, ◌&&◌}
use mathlib.Core.Option.{Option, none, some}
use mathlib.Core.Logic.{inl, inr}
use text.Mathlib.TextEquality.{Char-path}
use text.Mathlib.TextLemmas.{cons-append, nil-append}
use native.Mathlib.Omega.{arith}
use meristem.Base.Tests.{Bool-cases, ◌==◌, ==_iff, str_eq}
use meristem.Base.Lists.{any}
use meristem.Base.Text.{is_space, codes, trim_left, trim_right, trim_space, longer, cut}

cut_longer :
    (k c : Char) (s : String) (o : Option (String × String)) {before after : String}
    → ((b a : String)
        → ◌≡◌ {A = Option (String × String)} o (some (b, a))
        → s ≡ Str.◌++◌ b (Str.◌∷◌ k a))
    → longer c o ≡ some (before, after)
    → Str.◌∷◌ c s ≡ Str.◌++◌ before (Str.◌∷◌ k after)
cut_longer k c s none f h = cc
cut_longer k c s (some (b, a)) {before} {after} f h =
    let p : before ≡ Str.◌∷◌ c b = ground (arith, h) in
    let q : after ≡ a = ground (arith, h) in
    rw (p, q, cons-append c b (Str.◌∷◌ k a)) (ap (Str.◌∷◌ c) (f b a refl))

-- The parts of a cut, with the separator between them, are the text.
pub cut_sound :
    (k : Char) (s before after : String)
    → cut (code k) s ≡ some (before, after)
    → s ≡ Str.◌++◌ before (Str.◌∷◌ k after)
unfolding cut
cut_sound k String.[] before after h = cc
cut_sound k (String.◌∷◌ c s) before after h = elim (Bool-cases (code c == code k)) [
  | inl e ↦
      let b : before ≡ "" = ground (arith, e, h) in
      let a : after ≡ s = ground (arith, e, h) in
      let q : c ≡ k = Char-path c k ((==_iff (code c) (code k)).0 e) in
      rw (b, a, q, nil-append (Str.◌∷◌ k s)) refl
  | inr e ↦ cut_longer k c s (cut (code k) s) (λ b a. cut_sound k s b a) (ground (arith, e, h))
]

-- Before the first separator, whatever follows it.
pub cut-append :
    (k : Char) (before after : String)
    → any (λ c. c == code k) (codes before) ≡ false
    → cut (code k) (Str.◌++◌ before (Str.◌∷◌ k after)) ≡ some (before, after)
unfolding cut
cut-append k String.[] after h = rw (nil-append (Str.◌∷◌ k after)) (ground arith)
cut-append k (String.◌∷◌ c s) after h =
    rw (cons-append c s (Str.◌∷◌ k after)) (ground (arith, cut-append k s after))

trim_left_twice : (s : String) → trim_left (trim_left s) ≡ trim_left s
unfolding trim_left
trim_left_twice String.[] = refl
trim_left_twice (String.◌∷◌ c s) = elim (Bool-cases (is_space (code c))) [
  | inl e ↦ rw e (trim_left_twice s)
  | inr e ↦ rw e (rw e refl)
]

trim_right_twice : (s : String) → trim_right (trim_right s) ≡ trim_right s
unfolding trim_right
trim_right_twice String.[] = refl
trim_right_twice (String.◌∷◌ c s) =
    elim (Bool-cases (is_space (code c) && str_eq (trim_right s) "")) [
      | inl e ↦ rw e refl
      | inr e ↦ rw e (rw (trim_right_twice s) (rw e refl))
    ]

trim_right_first :
    (c : Char) (s : String)
    → is_space (code c) ≡ false
    → trim_right (Str.◌∷◌ c s) ≡ Str.◌∷◌ c (trim_right s)
unfolding trim_right
trim_right_first c s e = rw e refl

-- Where the text begins with no space, it does so with its end trimmed.
trim_left_right : (s : String) → trim_left (trim_right (trim_left s)) ≡ trim_right (trim_left s)
unfolding trim_left
trim_left_right String.[] = unfold trim_right in refl
trim_left_right (String.◌∷◌ c s) = elim (Bool-cases (is_space (code c))) [
  | inl e ↦ rw e (trim_left_right s)
  | inr e ↦ rw e (rw (trim_right_first c s e) (rw e refl))
]

pub trim_space-trim_space : (s : String) → trim_space (trim_space s) ≡ trim_space s
unfolding trim_space
trim_space-trim_space s = ap trim_right (trim_left_right s) ∙ trim_right_twice (trim_left s)
