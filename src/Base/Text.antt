-- ===== src/Base/Text.antt =====
-- The functions of Go's strings, sort and fmt packages that the program calls.
pub mod Laws
use Prim.Native.Char.{Char, code}
use Prim.Native.Nat.{ℕ, zero, suc, ◌/◌, ◌%◌, Ordering}
use Prim.Native.String as Str
use Prim.Native.String.{String}
use mathlib.Core.Path.{◌≡◌, refl, ◌∙◌, ap, subst}
use mathlib.Core.Bool.{Bool, true, false, ◌&&◌, ◌||◌}
use mathlib.Core.List.{List, [], ◌∷◌}
use mathlib.Core.Option.{Option, none, some}
use mathlib.Core.Logic.{inl, inr}
use text.Mathlib.TextEquality.{eq_iff}
use text.Mathlib.TextLemmas.{append-nil, cons-append, nil-append}
use meristem.Base.Lists.{any, is_empty, contains, all}
use native.Mathlib.Omega.{arith}
use meristem.Base.Tests.{Bool-cases, ltb, leb, ◌==◌, str_eq, if◌then◌else◌}

-- unicode.IsSpace
abbrev pub is_space : ℕ → Bool
is_space c =
    (leb 9 c && leb c 13)
    || c == 32
    || c == 0x85
    || c == 0xa0
    || c == 0x1680
    || (leb 0x2000 c && leb c 0x200a)
    || c == 0x2028
    || c == 0x2029
    || c == 0x202f
    || c == 0x205f
    || c == 0x3000

pub trim_left : String → String
trim_left String.[] = ""
trim_left (String.◌∷◌ c s) =
    let rest = trim_left s in if is_space (code c) then rest else String.◌∷◌ c s

pub trim_right : String → String
trim_right String.[] = ""
trim_right (String.◌∷◌ c s) =
    let rest = trim_right s in if is_space (code c) && str_eq rest "" then "" else String.◌∷◌ c rest

-- strings.TrimSpace
unfoldable pub trim_space : String → String
unfolding trim_left trim_right
trim_space s = trim_right (trim_left s)

-- strings.HasPrefix with strings.TrimPrefix: what follows the prefix, where it is one.
unfoldable pub strip_prefix? : String → String → Option String
strip_prefix? String.[] s = some s
strip_prefix? (String.◌∷◌ c p) String.[] = none
strip_prefix? (String.◌∷◌ c p) (String.◌∷◌ d s) =
    let rest = strip_prefix? p s in if code c == code d then rest else none

abbrev pub has_prefix : String → String → Bool
has_prefix s p = elim (strip_prefix? p s) [ some _ ↦ true | none ↦ false ]

-- The code points of a text: its bytes, where it is ASCII.
abbrev pub codes : String → List ℕ
codes String.[] = []
codes (String.◌∷◌ c s) = code c ∷ codes s

abbrev pub longer : Char → Option (String × String) → Option (String × String)
longer c none = none
longer c (some (before, after)) = some (String.◌∷◌ c before, after)

-- strings.Cut at the code point of a one-character separator.
unfoldable pub cut : ℕ → String → Option (String × String)
cut sep String.[] = none
cut sep (String.◌∷◌ c s) =
    let rest = cut sep s in if code c == sep then some ("", s) else longer c rest

unfoldable pub concat : List String → String
concat [] = ""
concat (s ∷ ss) = Str.◌++◌ s (concat ss)

-- strings.Join
unfoldable pub join : String → List String → String
unfolding concat
join sep [] = ""
join sep (s ∷ []) = s
join sep (s ∷ t ∷ ss) = concat (s ∷ sep ∷ join sep (t ∷ ss) ∷ [])

digit : ℕ → String
digit n =
    if n == 0
    then "0"
    else if n == 1
    then "1"
    else if n == 2
    then "2"
    else if n == 3
    then "3"
    else if n == 4
    then "4"
    else if n == 5
    then "5"
    else if n == 6
    then "6"
    else if n == 7
    then "7"
    else if n == 8
    then "8"
    else "9"

show_from : ℕ → ℕ → String → String
unfolding digit
show_from zero n acc = acc
show_from (suc fuel) n acc =
    let acc' = Str.◌++◌ (digit (n % 10)) acc in
    let rest = show_from fuel (n / 10) acc' in if ltb n 10 then acc' else rest

-- The verb %d on a number that is not negative. Each round drops a digit, so n + 1 rounds do.
unfoldable pub show_ℕ : ℕ → String
unfolding show_from
show_ℕ n = show_from (suc n) n ""

insert_string : String → List String → List String
insert_string s [] = s ∷ []
insert_string s (t ∷ ts) = elim (Str.compare s t) [
  | Ordering.gt ↦ t ∷ insert_string s ts
  | _ ↦ s ∷ t ∷ ts
]

-- sort.Strings: the order is total on texts, so every sorting function has this result.
unfoldable pub sort_strings : List String → List String
unfolding insert_string
sort_strings [] = []
sort_strings (s ∷ ss) = insert_string s (sort_strings ss)

text_test :
    (show_ℕ 1203 ≡ "1203")
    × (trim_space "  a b " ≡ "a b")
    × (join ", " (sort_strings ("b" ∷ "a" ∷ [])) ≡ "a, b")
    × (strip_prefix? "ab" "abc" ≡ some "c")
unfolding show_ℕ trim_space join sort_strings strip_prefix?
text_test = (refl, refl, refl, refl)

is_empty-insert_string : (s : String) (ts : List String) → is_empty (insert_string s ts) ≡ false
unfolding insert_string
is_empty-insert_string s [] = refl
is_empty-insert_string s (t ∷ ts) = ground arith

pub is_empty-sort_strings : (ss : List String) → is_empty (sort_strings ss) ≡ is_empty ss
unfolding sort_strings
is_empty-sort_strings [] = refl
is_empty-sort_strings (s ∷ ss) = is_empty-insert_string s (sort_strings ss)

-- The verb %q on a text of printable characters with neither quotes nor backslashes in it.
abbrev pub quote : String → String
quote s = concat ("\"" ∷ s ∷ "\"" ∷ [])

contains-insert_string :
    (s t : String) (ts : List String)
    → contains (insert_string s ts) t ≡ (str_eq s t || contains ts t)
unfolding insert_string
contains-insert_string s t [] = ground arith
contains-insert_string s t (u ∷ us) = ground (arith, contains-insert_string s t us)

-- Sorting keeps what a list contains.
pub contains-sort_strings :
    (ss : List String) (t : String) → contains (sort_strings ss) t ≡ contains ss t
unfolding sort_strings
contains-sort_strings [] t = refl
contains-sort_strings (s ∷ ss) t =
    contains-insert_string s t (sort_strings ss) ∙ ground (arith, contains-sort_strings ss t)

any-insert_string :
    (p : String → Bool) (s : String) (ts : List String)
    → any p (insert_string s ts) ≡ (p s || any p ts)
unfolding insert_string
any-insert_string p s [] = refl
any-insert_string p s (u ∷ us) = ground (arith, any-insert_string p s us)

-- Sorting keeps what the elements say.
pub any-sort_strings : (p : String → Bool) (ss : List String) → any p (sort_strings ss) ≡ any p ss
unfolding sort_strings
any-sort_strings p [] = refl
any-sort_strings p (s ∷ ss) =
    any-insert_string p s (sort_strings ss) ∙ ground (arith, any-sort_strings p ss)

pub strip_prefix?-append : (p s : String) → strip_prefix? p (Str.◌++◌ p s) ≡ some s
unfolding strip_prefix?
strip_prefix?-append String.[] s = ap some (nil-append s)
strip_prefix?-append (String.◌∷◌ c p) s =
    rw (cons-append c p s) (ground (arith, strip_prefix?-append p s))

-- A text joined from two.
pub concat_two : (s t : String) → concat (s ∷ t ∷ []) ≡ Str.◌++◌ s t
unfolding concat
concat_two s t = ap (Str.◌++◌ s) (append-nil t)

pub all_at :
    (p : String → Bool) (xs : List String) (s : String)
    → all p xs ≡ true
    → contains xs s ≡ true
    → p s ≡ true
all_at p [] s h k = ground arith
all_at p (x ∷ xs) s h k = elim (Bool-cases (str_eq x s)) [
  | inl e ↦ subst (λ y. p y ≡ true) ((eq_iff x s).0 e) (ground arith)
  | inr e ↦ all_at p xs s (ground arith) (ground (arith, e))
]
