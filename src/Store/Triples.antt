-- ===== src/Store/Triples.antt =====
-- What a transaction makes of a state, where it does not fail.
use meristem.Base.{◌≡◌, refl, Bool, true, false, if◌then◌else◌, Option, none, some, sym, subst}
use meristem.Store.{Store, Error, Result, Tx, ok, err, fail, gets, run_tx, ◌>>=◌}
use meristem.Store.Keeps.{After, Keeps}
use meristem.Store.Quiet.{Unchanged, UnchangedIfNone, Reads, Quiet}

pub record Triple {A : Type 0} (P : Store → Type 0) (m : Tx A) (Q : Store → Type 0) : Type 0 where
  pub at : (s : Store) → P s → After Q (m s)

After-weaken :
    {A : Type 0} {P Q : Store → Type 0} (r : Result (A × Store))
    → ((s : Store) → P s → Q s)
    → After P r
    → After Q r
After-weaken (ok (a, s)) w h = w s h
After-weaken (err e) w h = tt

bind-After :
    {A B : Type 0} {Q R : Store → Type 0} (r : Result (A × Store)) (f : A → Tx B)
    → After Q r
    → ((a : A) → Triple Q (f a) R)
    → After R (elim r as (λ _. Result (B × Store)) [ ok (a, s') ↦ f a s' | err e ↦ err e ])
bind-After (ok (a, s)) f h kf = (kf a).at s h
bind-After (err e) f h kf = tt

module _ {A B : Type 0} {P Q R : Store → Type 0} where
  pub Triple-bind :
      (m : Tx A) (f : A → Tx B) → Triple P m Q → ((a : A) → Triple Q (f a) R) → Triple P (m >>= f) R
  Triple-bind m f km kf = record { at = λ s h. bind-After (m s) f (km.at s h) kf }

module _ {A : Type 0} {P Q : Store → Type 0} where
  pub Triple-weaken : (m : Tx A) → ((s : Store) → P s → Q s) → Keeps P m → Triple P m Q
  Triple-weaken m w k = record { at = λ s h. After-weaken (m s) w (k.at s h) }

  pub Triple-start : (m : Tx A) → ((s : Store) → P s → Q s) → Keeps Q m → Triple P m Q
  Triple-start m w k = record { at = λ s h. k.at s (w s h) }

  pub Triple-fail : (e : Error) → Triple P (fail {A = A} e) Q
  Triple-fail e = record { at = λ s h. tt }

  pub Triple-if :
      (b : Bool) (m n : Tx A) → Triple P m Q → Triple P n Q → Triple P (if b then m else n) Q
  Triple-if true m n km kn = km
  Triple-if false m n km kn = kn

pub Keeps-Triple : {A : Type 0} {P : Store → Type 0} {m : Tx A} → Keeps P m → Triple P m P
Keeps-Triple k = record { at = k.at }

After-Unchanged :
    {A : Type 0} (P : Store → Type 0) (s : Store) (r : Result (A × Store))
    → Unchanged s r
    → P s
    → After P r
After-Unchanged P s (ok (a, t)) u h = subst P (sym u) h
After-Unchanged P s (err e) u h = tt

pub Reads-Keeps : {A : Type 0} {P : Store → Type 0} {m : Tx A} → Reads m → Keeps P m
Reads-Keeps {P = P} {m = m} r = record { at = λ s h. After-Unchanged P s (m s) (r.at s) h }

module _ {A B : Type 0} {P R : Store → Type 0} where
  pub Triple-then :
      (m : Tx A) (f : A → Tx B) → Keeps P m → ((a : A) → Triple P (f a) R) → Triple P (m >>= f) R
  Triple-then m f k kf = Triple-bind m f (Keeps-Triple k) kf

  -- The value read is that of the state.
  pub Triple-gets :
      (g : Store → A) (f : A → Tx B)
      → ((a : A) → Triple (λ s. P s × (g s ≡ a)) (f a) R)
      → Triple P (gets g >>= f) R
  Triple-gets g f k = record { at = λ s h. (k (g s)).at s (h, refl) }

module _ {A : Type 0} {P Q R : Store → Type 0} where
  pub Triple-pre : (m : Tx A) → ((s : Store) → P s → Q s) → Triple Q m R → Triple P m R
  Triple-pre m w k = record { at = λ s h. k.at s (w s h) }

module _ {A : Type 0} {P Q : Store → Type 0} where
  pub Triple-test :
      (b : Bool) (m n : Tx A)
      → (b ≡ true → Triple P m Q)
      → (b ≡ false → Triple P n Q)
      → Triple P (if b then m else n) Q
  Triple-test true m n km kn = km refl
  Triple-test false m n km kn = kn refl

After-quiet :
    {A : Type 0} {P Q R : Store → Type 0} (s : Store) (r : Result (Option Error × Store))
    (f : Option Error → Tx A)
    → UnchangedIfNone s r
    → P s
    → After Q r
    → Triple P (f none) R
    → ((e : Error) → Triple Q (f (some e)) R)
    → After R (elim r as (λ _. Result (A × Store)) [ ok (a, s') ↦ f a s' | err e ↦ err e ])
After-quiet {P = P} s (ok (none, t)) f u h q kn ks = kn.at t (subst P (sym u) h)
After-quiet s (ok (some e, t)) f u h q kn ks = (ks e).at t q
After-quiet s (err e) f u h q kn ks = tt

-- What follows a quiet part starts from the same state where that part reports no error.
pub Triple-quiet :
    {A : Type 0} {P Q R : Store → Type 0} (m : Tx (Option Error)) (f : Option Error → Tx A)
    → Quiet m
    → Triple P m Q
    → Triple P (f none) R
    → ((e : Error) → Triple Q (f (some e)) R)
    → Triple P (m >>= f) R
Triple-quiet m f u k kn ks = record {
  at = λ s h. After-quiet s (m s) f (u.at s) h (k.at s h) kn ks;
}

pub run_tx-Triple :
    {A : Type 0} {P Q : Store → Type 0} (m : Tx (Result A))
    → ((s : Store) → P s → Q s)
    → Triple P m Q
    → (s : Store) → P s
    → Q (run_tx m s).1
run_tx-Triple {A} {P} {Q} m w k s h = go (m s) (k.at s h)
  where
    go :
        (r : Result (Result A × Store))
        → After Q r
        → Q (elim r as (λ _. Result A × Store) [ ok (x, s') ↦ (x, s') | err e ↦ (err e, s) ]).1
    go (ok (x, s')) k' = k'
    go (err e) k' = w s h
