-- ===== src/WorkItems/Recorded.antt =====
-- What an append with a rate budget leaves where no error is reported: the store as it was, for an
-- event that was there, or the store with the event and what the projectors made of it.
use meristem.Base.{
  Bool, true, false, Option, none, some, inl, ◌≡◌, refl, sym, subst, String, if◌then◌else◌, str_eq,
}
use meristem.Domain.{Token, WorkItem}
use meristem.Events.{Spec}
use meristem.Feed.Taxonomy.{KindClass, classify}
use meristem.Store.{Store, Error, Result, Tx, ok, err, pure, fail, unexpected_event_dedupe}
use meristem.Store.Keeps.{After}
use meristem.Store.Quiet.{UnchangedIfNone}
use meristem.WorkItems.{Env}
use meristem.WorkItems.Writer.{append, validate, event_exists}
use meristem.WorkItems.Writer.Outcome.{Outcome, append-After}
use meristem.WorkItems.Quiet.{rate_budget-Quiet}
use meristem.WorkItems.Enforce.{
  append_unless, append_classified, check_spec, append_with_rate_budget,
}

abbrev pub OnNone : (Store → Type 0) → Result (Option Error × Store) → Type 0
OnNone Q (ok (none, t)) = Q t
OnNone Q _ = Unit

pub quiet_then :
    (Q : Store → Type 0) (s : Store) (r : Result (Option Error × Store))
    (f : Option Error → Tx (Option Error))
    → UnchangedIfNone s r
    → OnNone Q (f none s)
    → ((e : Error) (t : Store) → OnNone Q (f (some e) t))
    → OnNone Q
        (elim r as (λ _. Result (Option Error × Store)) [ ok (a, s') ↦ f a s' | err e ↦ err e ])
quiet_then Q s (ok (none, t)) f u n k = subst (λ x. OnNone Q (f none x)) (sym u) n
quiet_then Q s (ok (some e, t)) f u n k = k e t
quiet_then Q s (err e) f u n k = tt

After-then :
    {A : Type 0} (Q : Store → Type 0) (r : Result (A × Store))
    → After Q r
    → OnNone Q (elim r as (λ _. Result (Option Error × Store)) [
      | ok (a, t) ↦ ok (none, t)
      | err e ↦ err e
    ])
After-then Q (ok (a, t)) h = h
After-then Q (err e) h = tt

module _ (env : Env) (w : WorkItem) (spec : Spec) (inner : String) (actor : Token) (s : Store) where
  append_unless-OnNone : OnNone (Outcome env spec s) (append_unless env spec none s)
  unfolding append_unless
  append_unless-OnNone = After-then _ (append env spec s) (append-After env spec s)

  refused-OnNone :
      (e : Error) (t : Store) → OnNone (Outcome env spec s) (append_unless env spec (some e) t)
  unfolding append_unless
  refused-OnNone e t = tt

  append_classified-OnNone :
      (c : Option KindClass)
      → OnNone (Outcome env spec s) (append_classified env w spec inner actor c s)
  unfolding append_classified
  append_classified-OnNone none = tt
  append_classified-OnNone (some c) =
      quiet_then _ s _ (append_unless env spec)
        ((rate_budget-Quiet env w (env.digest spec.identity) spec.payload inner c actor).at s)
        append_unless-OnNone refused-OnNone

  exists-OnNone :
      (b d : Bool)
      → event_exists (env.digest spec.identity) s.events ≡ b
      → OnNone (Outcome env spec s) (
          (if b
              then (if d then fail unexpected_event_dedupe else pure none)
              else append_classified env w spec inner actor (classify spec.payload))
            s)
  exists-OnNone true true h = tt
  exists-OnNone true false h = inl (refl, h)
  exists-OnNone false d h = append_classified-OnNone (classify spec.payload)

  checked-OnNone :
      (o : Option Error) (b : Store → Bool) (d : Bool)
      → event_exists (env.digest spec.identity) s.events ≡ b s
      → OnNone (Outcome env spec s) (elim (check_spec o s) as (λ _. Result (Option Error × Store)) [
        | ok (_, t) ↦
            (if b t
                then (if d then fail unexpected_event_dedupe else pure none)
                else append_classified env w spec inner actor (classify spec.payload))
              t
        | err e ↦ err e
      ])
  unfolding check_spec
  checked-OnNone (some e) b d h = tt
  checked-OnNone none b d h = exists-OnNone (b s) d h

  pub append_with_rate_budget-OnNone :
      OnNone (Outcome env spec s) (append_with_rate_budget env w spec inner actor s)
  unfolding append_with_rate_budget
  append_with_rate_budget-OnNone =
      checked-OnNone (validate spec) (λ t. event_exists (env.digest spec.identity) t.events)
        (str_eq spec.discriminator "") refl
