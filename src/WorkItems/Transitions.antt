-- ===== src/WorkItems/Transitions.antt =====
-- Service.Transition of internal/workitems/service.go: which moves it makes, and what they change.
use meristem.Base.{
  Bool, true, false, not, ◌&&◌, Option, none, some, List, [], ◌∷◌, ◌++◌, ◌≡◌, ◌⊎◌, inl, inr, refl,
  sym, ap, ◌∙◌, subst, String, if◌then◌else◌, arith,
}
use meristem.Domain.{Uuid, Token, WorkItem, WorkItemState, state_valid, can_transition, state_eq}
use meristem.Events.{SubjectKind, Spec, transitioned}
use meristem.Store.{
  Store, Error, Result, Tx, ok, err, pure, fail, lift, run_tx, find_item, ◌>>=◌, invalid_state,
  invalid_transition, convergence_checks_required,
}
use meristem.Store.Quiet.{UnchangedIfNone, Quiet-if, Quiet-pure}
use meristem.WorkItems.{Env, Context}
use meristem.WorkItems.Projectors.{update_item, move_item}
use meristem.WorkItems.Projectors.Rows.{transitioned-rows}
use meristem.WorkItems.Escalation.{spec_of}
use meristem.WorkItems.Quiet.{running_budget-Quiet}
use meristem.WorkItems.Enforce.{enforce_concurrent_running_budget}
use meristem.WorkItems.Writer.{event_exists, event_of}
use meristem.WorkItems.Writer.Outcome.{Outcome, HasRecorded}
use meristem.WorkItems.Recorded.{OnNone, append_with_rate_budget-OnNone}
use meristem.WorkItems.Service.{
  transition, move, settle, get_item, found, for_update, checks_required,
}

-- The event of a transition from a state.
abbrev pub move_spec : Context → Uuid → WorkItemState → String → Token → WorkItemState → Spec
move_spec ctx id to reason actor from =
    spec_of actor SubjectKind.work_item id (transitioned from to reason) ctx.discriminator

-- The id that event has, from the state that the item is in.
abbrev pub event_id : Env → Context → Uuid → WorkItemState → String → Token → WorkItem → Uuid
event_id env ctx id to reason actor current =
    env.digest (move_spec ctx id to reason actor current.state).identity

-- What a call that returned `w` and left `t` did to the item `id`: nothing, the event of the move
-- being in the log; or the event was not there, and is in the log with the row it projects to.
pub record IsMoved (env : Env) (ctx : Context) (id : Uuid) (to : WorkItemState) (reason : String)
    (actor : Token) (s : Store) (w : WorkItem) (t : Store) : Type 0 where
  pub current : WorkItem
  pub there : find_item id s.items ≡ some current
  pub allowed : can_transition current.state to ≡ true
  pub checked : checks_required current to ≡ false
  pub effect :
      ((event_exists (event_id env ctx id to reason actor current) s.events ≡ true)
        × (t ≡ s)
        × (w ≡ current))
      ⊎ ((event_exists (event_id env ctx id to reason actor current) s.events ≡ false)
          × (t.events
              ≡ s.events
                ++ event_of
                    (event_id env ctx id to reason actor current)
                    s.now
                    (move_spec ctx id to reason actor current.state)
                  ∷ [])
          × (t.items ≡ update_item id (move_item current.state to reason s.now) s.items)
          × (t.relations ≡ s.relations)
          × (w ≡ move_item current.state to reason s.now current))

abbrev OnOk : (WorkItem → Store → Type 0) → Result (Result WorkItem × Store) → Type 0
OnOk Q (ok (ok w, t)) = Q w t
OnOk Q _ = Unit

quiet_ok :
    (Q : WorkItem → Store → Type 0) (s : Store) (r : Result (Option Error × Store))
    (f : Option Error → Tx (Result WorkItem))
    → UnchangedIfNone s r
    → OnOk Q (f none s)
    → ((e : Error) (t : Store) → OnOk Q (f (some e) t))
    → OnOk Q
        (elim r as (λ _. Result (Result WorkItem × Store)) [ ok (a, s') ↦ f a s' | err e ↦ err e ])
quiet_ok Q s (ok (none, t)) f u n k = subst (λ x. OnOk Q (f none x)) (sym u) n
quiet_ok Q s (ok (some e, t)) f u n k = k e t
quiet_ok Q s (err e) f u n k = tt

settled :
    (Q : WorkItem → Store → Type 0) (id : Uuid) (r : Result (Option Error × Store))
    → OnNone (λ t. OnOk Q (ok (get_item id t, t))) r
    → OnOk Q (elim r as (λ _. Result (Result WorkItem × Store)) [
      | ok (o, t) ↦ settle id o t
      | err e ↦ err e
    ])
unfolding settle
settled Q id (ok (none, t)) h = h
settled Q id (ok (some e, t)) h = tt
settled Q id (err e) h = tt

find_item-update :
    (f : WorkItem → WorkItem) (id : Uuid) (ws : List WorkItem) (w : WorkItem)
    → ((x : WorkItem) → (f x).id ≡ x.id)
    → find_item id ws ≡ some w
    → find_item id (update_item id f ws) ≡ some (f w)
unfolding find_item update_item
find_item-update f id [] w i h = absurd cc
find_item-update f id (x ∷ ws) w i h = ground (arith, i x, find_item-update f id ws w i)

get_item-is :
    (id : Uuid) (t : Store) (w x : WorkItem)
    → get_item id t ≡ ok w
    → find_item id t.items ≡ some x
    → w ≡ x
unfolding get_item found
get_item-is id t w x g h = ground (arith, rw h at g)

module _ (env : Env) (ctx : Context) (id : Uuid) (to : WorkItemState) (reason : String)
    (actor : Token) (s : Store) (current : WorkItem) (there : find_item id s.items ≡ some current)
    (allowed : can_transition current.state to ≡ true)
    (checked : checks_required current to ≡ false) where
  abbrev spec : Spec
  spec = move_spec ctx id to reason actor current.state

  abbrev Q : WorkItem → Store → Type 0
  Q w t = IsMoved env ctx id to reason actor s w t

  abbrev move_it : WorkItem → WorkItem
  move_it = move_item current.state to reason s.now

  recorded_tables :
      (t : Store)
      → HasRecorded env spec s t
      → t.tables ≡ record s.tables { items = update_item id move_it s.items }
  recorded_tables t r =
      transitioned-rows _ s.tables t.tables current.state to reason refl r.projected

  moved_there :
      (t : Store) → HasRecorded env spec s t → find_item id t.items ≡ some (move_it current)
  moved_there t r =
      ap (λ x. find_item id x.items) (recorded_tables t r)
      ∙ find_item-update move_it id s.items current (λ x. refl) there

  outcome-IsMoved : (t : Store) (w : WorkItem) → get_item id t ≡ ok w → Outcome env spec s t → Q w t
  outcome-IsMoved t w g (inl (same, known)) = record {
    current = current;
    there = there;
    allowed = allowed;
    checked = checked;
    effect =
        inl
          (known, same, get_item-is id t w current g (ap (λ x. find_item id x.items) same ∙ there));
  }
  outcome-IsMoved t w g (inr r) = record {
    current = current;
    there = there;
    allowed = allowed;
    checked = checked;
    effect = inr (
      r.new,
      r.logged,
      ap (λ x. x.items) (recorded_tables t r),
      ap (λ x. x.relations) (recorded_tables t r),
      get_item-is id t w (move_it current) g (moved_there t r),
    );
  }

  found_after :
      (t : Store) (r : Result WorkItem)
      → get_item id t ≡ r
      → Outcome env spec s t
      → OnOk Q (ok (r, t))
  found_after t (ok w) g o = outcome-IsMoved t w g o
  found_after t (err e) g o = tt

  none_weaken :
      (r : Result (Option Error × Store))
      → OnNone (Outcome env spec s) r
      → OnNone (λ t. OnOk Q (ok (get_item id t, t))) r
  none_weaken (ok (none, t)) o = found_after t _ refl o
  none_weaken (ok (some e, t)) o = tt
  none_weaken (err e) o = tt

  moved-OnOk :
      OnOk Q ((move env ctx current id to reason actor none >>= λ exhausted. settle id exhausted) s)
  unfolding move
  moved-OnOk =
      settled Q id _ (none_weaken _ (append_with_rate_budget-OnNone env current spec "" actor s))

  over-OnOk :
      (e : Error) (t : Store)
      → OnOk Q (
          (move env ctx current id to reason actor (some e) >>= λ exhausted. settle id exhausted) t)
  unfolding move settle
  over-OnOk e t = tt

  guarded-OnOk :
      (b : Bool)
      → OnOk Q (
          ((if b then enforce_concurrent_running_budget env current actor else pure none)
              >>= λ over.
                  move env ctx current id to reason actor over >>= λ exhausted. settle id exhausted)
            s)
  guarded-OnOk b =
      quiet_ok Q s _ _
        ((Quiet-if b _ _ (running_budget-Quiet env current actor) (Quiet-pure none)).at s)
        moved-OnOk over-OnOk

module _ (env : Env) (ctx : Context) (id : Uuid) (to : WorkItemState) (reason : String)
    (actor : Token) (s : Store) where
  abbrev proceed : WorkItem → Tx (Result WorkItem)
  proceed current =
      (if state_eq to WorkItemState.running && not (state_eq current.state WorkItemState.running)
        then enforce_concurrent_running_budget env current actor
        else pure none)
      >>= λ over. move env ctx current id to reason actor over >>= λ exhausted. settle id exhausted

  tested-OnOk :
      (current : WorkItem) (a b : Bool)
      → find_item id s.items ≡ some current
      → can_transition current.state to ≡ a
      → checks_required current to ≡ b
      → OnOk (IsMoved env ctx id to reason actor s) (
          (if not a
              then fail (invalid_transition current.state to)
              else if b
              then fail convergence_checks_required
              else proceed current)
            s)
  tested-OnOk current false b e c d = tt
  tested-OnOk current true true e c d = tt
  tested-OnOk current true false e c d = guarded-OnOk env ctx id to reason actor s current e c d _

  found-OnOk :
      (o : Option WorkItem)
      → find_item id s.items ≡ o
      → OnOk
          (IsMoved env ctx id to reason actor s)
          (elim (lift (found o) s) as (λ _. Result (Result WorkItem × Store)) [
            | ok (current, t) ↦
                (if not (can_transition current.state to)
                    then fail (invalid_transition current.state to)
                    else if checks_required current to
                    then fail convergence_checks_required
                    else proceed current)
                  t
            | err e ↦ err e
          ])
  unfolding found
  found-OnOk none e = tt
  found-OnOk (some current) e = tested-OnOk current _ _ e refl refl

  valid-OnOk :
      (b : Bool)
      → OnOk (IsMoved env ctx id to reason actor s) (
          (if not b
              then fail (invalid_state to)
              else (for_update id >>= λ current.
                  if not (can_transition current.state to)
                  then fail (invalid_transition current.state to)
                  else if checks_required current to
                  then fail convergence_checks_required
                  else proceed current))
            s)
  unfolding get_item
  valid-OnOk false = tt
  valid-OnOk true = found-OnOk _ refl

  transition-OnOk :
      OnOk (IsMoved env ctx id to reason actor s) (transition env ctx id to reason actor s)
  unfolding transition
  transition-OnOk = valid-OnOk (state_valid to)

  run-IsMoved :
      (r : Result (Result WorkItem × Store)) (w : WorkItem) (t : Store)
      → OnOk (IsMoved env ctx id to reason actor s) r
      → (elim r as (λ _. Result WorkItem × Store) [ ok (x, s') ↦ (x, s') | err e ↦ (err e, s) ])
        ≡ (ok w, t)
      → IsMoved env ctx id to reason actor s w t
  run-IsMoved (ok (ok x, t')) w t o h =
      subst (λ y. IsMoved env ctx id to reason actor s w y) (ap (λ p. p.1) h)
        (subst (λ y. IsMoved env ctx id to reason actor s y t') (cc) o)
  run-IsMoved (ok (err e, t')) w t o h = absurd cc
  run-IsMoved (err e) w t o h = absurd cc

  -- A transition that succeeds found the item and asked for a move that the state machine has
  -- from the item's state, with checks where those are required. Either the log had the event
  -- of that move from an earlier request, and nothing changed and the item is returned as it
  -- was; or it had not, and the event is appended to the log and of the tables only the
  -- item's row changed, to the state asked for, as it is returned.
  pub transition-IsMoved :
      (w : WorkItem) (t : Store)
      → run_tx (transition env ctx id to reason actor) s ≡ (ok w, t)
      → IsMoved env ctx id to reason actor s w t
  transition-IsMoved w t h = run-IsMoved _ w t transition-OnOk h
