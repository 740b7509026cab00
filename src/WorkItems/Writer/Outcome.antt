-- ===== src/WorkItems/Writer/Outcome.antt =====
-- What Writer.Append of internal/events/events.go leaves: the store as it was, for an event that was
-- there, or the store with the event and what the projectors made of it.
use meristem.Base.{
  Bool, true, false, Option, none, some, List, [], ◌∷◌, ◌++◌, ◌≡◌, ◌⊎◌, inl, inr, refl, sym, ap,
  ◌∙◌, subst, arith,
}
use meristem.Domain.{Uuid}
use meristem.Events.{Spec, Event}
use meristem.Store.{Store, Error, Result, Tables, ok, err}
use meristem.Store.Keeps.{After}
use meristem.WorkItems.{Env}
use meristem.WorkItems.Projectors.{project}
use meristem.WorkItems.Writer.{
  append, append_validated, insert_event, record_event, validate, event_exists, event_of,
}

-- The event was not in the log of `s`, and `t` has it on top of `s`.
pub record HasRecorded (env : Env) (spec : Spec) (s t : Store) : Type 0 where
  pub new : event_exists (env.digest spec.identity) s.events ≡ false
  pub projected : project (event_of (env.digest spec.identity) s.now spec) s.tables ≡ ok t.tables
  pub logged : t.events ≡ s.events ++ event_of (env.digest spec.identity) s.now spec ∷ []

abbrev pub Outcome : Env → Spec → Store → Store → Type 0
Outcome env spec s t =
    ((t ≡ s) × (event_exists (env.digest spec.identity) s.events ≡ true)) ⊎ HasRecorded env spec s t

module _ (env : Env) (spec : Spec) (s : Store) where
  record_event-After :
      (r : Result Tables)
      → event_exists (env.digest spec.identity) s.events ≡ false
      → project (event_of (env.digest spec.identity) s.now spec) s.tables ≡ r
      → After
          (Outcome env spec s)
          (record_event (event_of (env.digest spec.identity) s.now spec) s r)
  unfolding record_event
  record_event-After (ok t) n h = inr (record { new = n; projected = h; logged = refl })
  record_event-After (err e) n h = tt

  insert_event-After :
      (b : Bool)
      → event_exists (env.digest spec.identity) s.events ≡ b
      → After (Outcome env spec s) (insert_event (env.digest spec.identity) spec s b)
  unfolding insert_event
  insert_event-After true h = inl (refl, h)
  insert_event-After false h = record_event-After _ h refl

  append_validated-After :
      (o : Option Error) → After (Outcome env spec s) (append_validated env spec s o)
  unfolding append_validated
  append_validated-After none = insert_event-After _ refl
  append_validated-After (some e) = tt

  -- What an append leaves where it succeeds.
  pub append-After : After (Outcome env spec s) (append env spec s)
  unfolding append
  append-After = append_validated-After (validate spec)

event_exists-snoc : (es : List Event) (e : Event) → event_exists e.id (es ++ e ∷ []) ≡ true
event_exists-snoc [] e = ground arith
event_exists-snoc (x ∷ xs) e = ground (arith, event_exists-snoc xs e)

-- What the answer of an append says: the event is in the log, under the id that its identity has.
abbrev IsAnswer : Env → Spec → Result ((Uuid × Bool) × Store) → Type 0
IsAnswer env spec (ok ((id, _), t)) =
    (id ≡ env.digest spec.identity) × (event_exists (env.digest spec.identity) t.events ≡ true)
IsAnswer env spec (err _) = Unit

module _ (env : Env) (spec : Spec) (s : Store) where
  record_event-IsAnswer :
      (r : Result Tables)
      → IsAnswer env spec (record_event (event_of (env.digest spec.identity) s.now spec) s r)
  unfolding record_event
  record_event-IsAnswer (ok t) =
      (refl, event_exists-snoc s.events (event_of (env.digest spec.identity) s.now spec))
  record_event-IsAnswer (err e) = tt

  insert_event-IsAnswer :
      (b : Bool)
      → event_exists (env.digest spec.identity) s.events ≡ b
      → IsAnswer env spec (insert_event (env.digest spec.identity) spec s b)
  unfolding insert_event
  insert_event-IsAnswer true h = (refl, h)
  insert_event-IsAnswer false h = record_event-IsAnswer _

  append_validated-IsAnswer : (o : Option Error) → IsAnswer env spec (append_validated env spec s o)
  unfolding append_validated
  append_validated-IsAnswer none = insert_event-IsAnswer _ refl
  append_validated-IsAnswer (some e) = tt

  append-IsAnswer : IsAnswer env spec (append env spec s)
  unfolding append
  append-IsAnswer = append_validated-IsAnswer (validate spec)

answer_of :
    (env : Env) (spec : Spec) (r : Result ((Uuid × Bool) × Store)) (id : Uuid) (fresh : Bool)
    (t : Store)
    → IsAnswer env spec r
    → r ≡ ok ((id, fresh), t)
    → (id ≡ env.digest spec.identity) × (event_exists (env.digest spec.identity) t.events ≡ true)
answer_of env spec r id fresh t a e = subst (IsAnswer env spec) e a

append_existing :
    (env : Env) (spec : Spec) (t : Store)
    → validate spec ≡ none
    → event_exists (env.digest spec.identity) t.events ≡ true
    → append env spec t ≡ ok ((env.digest spec.identity, false), t)
unfolding append append_validated insert_event
append_existing env spec t v h = rw (v, h)

-- Appending an event again, by whichever source and actor, records nothing: it answers with the id
-- of the first append and with `false` for fresh, and leaves the store as it is.
pub append-idempotent :
    (env : Env) (first again : Spec) (s t : Store) (id : Uuid) (fresh : Bool)
    → again.identity ≡ first.identity
    → validate again ≡ none
    → append env first s ≡ ok ((id, fresh), t)
    → append env again t ≡ ok ((id, false), t)
append-idempotent env first again s t id fresh i v h =
    let a = answer_of env first _ id fresh t (append-IsAnswer env first s) h in
    let d : env.digest again.identity ≡ env.digest first.identity = ap env.digest i in
    append_existing env again t v (ap (λ x. event_exists x t.events) d ∙ a.1)
    ∙ ap (λ x. ok ((x, false), t)) (d ∙ sym a.0)
