-- ===== src/Store/Keeps.antt =====
-- Invariants of transactions, with one rule for each way to build a transaction.
use meristem.Base.{Bool, true, false, if◌then◌else◌}
use meristem.Store.{Store, Error, Result, Tx, ok, err, pure, fail, gets, lift, run_tx, ◌>>=◌}

-- What holds of the state that a transaction leaves, where it does not fail.
abbrev pub After : {A : Type 0} → (Store → Type 0) → Result (A × Store) → Type 0
After P (ok (_, s)) = P s
After P (err _) = Unit

pub record Keeps {A : Type 0} (P : Store → Type 0) (m : Tx A) : Type 0 where
  pub at : (s : Store) → P s → After P (m s)

lift-After : {A : Type 0} (P : Store → Type 0) (r : Result A) (s : Store) → P s → After P (lift r s)
lift-After P (ok a) s h = h
lift-After P (err e) s h = tt

module _ {A : Type 0} {P : Store → Type 0} where
  pub Keeps-gets : (read : Store → A) → Keeps P (gets read)
  Keeps-gets read = record { at = λ s h. h }

  pub Keeps-lift : (r : Result A) → Keeps P (lift r)
  Keeps-lift r = record { at = lift-After P r }

  pub Keeps-fail : (e : Error) → Keeps P (fail {A = A} e)
  Keeps-fail e = record { at = λ s h. tt }

  pub Keeps-pure : (a : A) → Keeps P (pure a)
  Keeps-pure a = record { at = λ s h. h }

  pub Keeps-if :
      (test : Bool) (left right : Tx A)
      → Keeps P left
      → Keeps P right
      → Keeps P (if test then left else right)
  Keeps-if true left right ky kn = ky
  Keeps-if false left right ky kn = kn

module _ {A B : Type 0} {P : Store → Type 0} (first : Tx A) (rest : A → Tx B) where
  bind-After :
      (r : Result (A × Store))
      → After P r
      → ((a : A) → Keeps P (rest a))
      → After P (elim r [ ok (a, s') ↦ rest a s' | err e ↦ err e ])
  bind-After (ok (a, s)) h k = (k a).at s h
  bind-After (err e) h k = tt

  pub Keeps-bind : Keeps P first → ((a : A) → Keeps P (rest a)) → Keeps P (first >>= rest)
  Keeps-bind start k = record { at = λ s h. bind-After (first s) (start.at s h) k }

pub ruleset keeps_rules = (Keeps-bind, Keeps-if, Keeps-pure, Keeps-gets, Keeps-lift, Keeps-fail)

-- A transaction that fails leaves the state as it was.
pub run_tx-Keeps :
    {A : Type 0} {P : Store → Type 0} (m : Tx (Result A))
    → Keeps P m
    → (s : Store) → P s
    → P (run_tx m s).1
run_tx-Keeps {A} {P} m k s h = go (m s) (k.at s h)
  where
    go :
        (r : Result (Result A × Store))
        → After P r
        → P (elim r as (λ _. Result A × Store) [ ok (x, s') ↦ (x, s') | err e ↦ (err e, s) ]).1
    go (ok (x, s')) k' = k'
    go (err e) k' = h
