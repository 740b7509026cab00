-- ===== src/Store/Quiet.antt =====
-- Transactions that write nothing, and those that write nothing where they report no error.
use meristem.Base.{◌≡◌, subst, refl, Bool, true, false, if◌then◌else◌, Option, none, some}
use meristem.Store.{Store, Error, Result, Tx, ok, err, pure, fail, gets, lift, ◌>>=◌}

abbrev pub Unchanged : {A : Type 0} → Store → Result (A × Store) → Type 0
Unchanged s (ok (_, t)) = t ≡ s
Unchanged s (err _) = Unit

pub record Reads {A : Type 0} (m : Tx A) : Type 0 where
  pub at : (s : Store) → Unchanged s (m s)

-- No write where the reported error is `none`.
abbrev pub UnchangedIfNone : Store → Result (Option Error × Store) → Type 0
UnchangedIfNone s (ok (none, t)) = t ≡ s
UnchangedIfNone s _ = Unit

pub record Quiet (m : Tx (Option Error)) : Type 0 where
  pub at : (s : Store) → UnchangedIfNone s (m s)

abbrev pub NotNone : Result (Option Error × Store) → Type 0
NotNone (ok (none, _)) = ⊥
NotNone _ = Unit

-- An error is always reported.
pub record Reports (m : Tx (Option Error)) : Type 0 where
  pub at : (s : Store) → NotNone (m s)

lift-Unchanged : {A : Type 0} (r : Result A) (s : Store) → Unchanged s (lift r s)
lift-Unchanged (ok a) s = refl
lift-Unchanged (err e) s = tt

module _ {A : Type 0} where
  pub Reads-pure : (a : A) → Reads (pure a)
  Reads-pure a = record { at = λ s. refl }

  pub Reads-fail : (e : Error) → Reads (fail {A = A} e)
  Reads-fail e = record { at = λ s. tt }

  pub Reads-gets : (f : Store → A) → Reads (gets f)
  Reads-gets f = record { at = λ s. refl }

  pub Reads-lift : (r : Result A) → Reads (lift r)
  Reads-lift r = record { at = lift-Unchanged r }

  pub Reads-if :
      (test : Bool) (left right : Tx A)
      → Reads left
      → Reads right
      → Reads (if test then left else right)
  Reads-if true left right ky kn = ky
  Reads-if false left right ky kn = kn

module _ {A B : Type 0} where
  bind-Unchanged :
      (s : Store) (r : Result (A × Store)) (f : A → Tx B)
      → Unchanged s r
      → ((a : A) → Reads (f a))
      → Unchanged s (elim r as (λ _. Result (B × Store)) [ ok (a, s') ↦ f a s' | err e ↦ err e ])
  bind-Unchanged s (ok (a, t)) f h kf = subst (λ x. Unchanged x (f a t)) h ((kf a).at t)
  bind-Unchanged s (err e) f h kf = tt

  pub Reads-bind : (m : Tx A) (f : A → Tx B) → Reads m → ((a : A) → Reads (f a)) → Reads (m >>= f)
  Reads-bind m f km kf = record { at = λ s. bind-Unchanged s (m s) f (km.at s) kf }

pub Quiet-pure : (o : Option Error) → Quiet (pure o)
Quiet-pure none = record { at = λ s. refl }
Quiet-pure (some e) = record { at = λ s. tt }

pub Quiet-fail : (e : Error) → Quiet (fail e)
Quiet-fail e = record { at = λ s. tt }

pub Quiet-if : (b : Bool) (m n : Tx (Option Error)) → Quiet m → Quiet n → Quiet (if b then m else n)
Quiet-if true m n km kn = km
Quiet-if false m n km kn = kn

reported : (s : Store) (r : Result (Option Error × Store)) → NotNone r → UnchangedIfNone s r
reported s (ok (none, t)) h = absurd h
reported s (ok (some e, t)) h = tt
reported s (err e) h = tt

pub Quiet-Reports : (m : Tx (Option Error)) → Reports m → Quiet m
Quiet-Reports m k = record { at = λ s. reported s (m s) (k.at s) }

pub Reports-some : (e : Error) → Reports (pure (some e))
Reports-some e = record { at = λ s. tt }

pub Reports-fail : (e : Error) → Reports (fail e)
Reports-fail e = record { at = λ s. tt }

module _ {A : Type 0} where
  bind-UnchangedIfNone :
      (s : Store) (r : Result (A × Store)) (f : A → Tx (Option Error))
      → Unchanged s r
      → ((a : A) → Quiet (f a))
      → UnchangedIfNone s
          (elim r as (λ _. Result (Option Error × Store)) [ ok (a, s') ↦ f a s' | err e ↦ err e ])
  bind-UnchangedIfNone s (ok (a, t)) f h kf = subst (λ x. UnchangedIfNone x (f a t)) h ((kf a).at t)
  bind-UnchangedIfNone s (err e) f h kf = tt

  pub Quiet-bind :
      (m : Tx A) (f : A → Tx (Option Error)) → Reads m → ((a : A) → Quiet (f a)) → Quiet (m >>= f)
  Quiet-bind m f km kf = record { at = λ s. bind-UnchangedIfNone s (m s) f (km.at s) kf }

  bind-NotNone :
      (r : Result (A × Store)) (f : A → Tx (Option Error))
      → ((a : A) → Reports (f a))
      → NotNone
          (elim r as (λ _. Result (Option Error × Store)) [ ok (a, s') ↦ f a s' | err e ↦ err e ])
  bind-NotNone (ok (a, t)) f kf = (kf a).at t
  bind-NotNone (err e) f kf = tt

  pub Reports-bind :
      (m : Tx A) (f : A → Tx (Option Error)) → ((a : A) → Reports (f a)) → Reports (m >>= f)
  Reports-bind m f kf = record { at = λ s. bind-NotNone (m s) f kf }

pub ruleset reads_rules = (Reads-pure, Reads-fail, Reads-gets, Reads-lift, Reads-if, Reads-bind)

pub ruleset quiet_rules = (reads_rules, Quiet-pure, Quiet-fail, Quiet-if, Quiet-bind)

pub ruleset reports_rules = (Reports-some, Reports-fail, Reports-bind)
