-- ===== src/WorkItems/History.antt =====
-- Sequences of calls of the methods of internal/workitems/service.go, and what holds after any of them.
use meristem.Base.{◌+◌, String, List, [], ◌∷◌, ◌++◌, ◌≡◌, refl, ◌∙◌, sym, ap, ℕ}
use mathlib.Core.List.{append-nil, append_assoc}
use meristem.Domain.{Uuid, Token, WorkItemState, HumanReviewStatus}
use meristem.Events.{Spec, Event}
use meristem.Store.{Store, ok, run_tx}
use meristem.Store.Keeps.{Keeps, run_tx-Keeps}
use meristem.WorkItems.{Env, Context}
use meristem.WorkItems.Writer.{append, event_of}
use meristem.WorkItems.Writer.Replay.{append-Keeps, append-IsDerived, replay, empty_tables}
use meristem.WorkItems.Derived.{
  create-Keeps, spawn_child-Keeps, spawn_child_with_id-Keeps, update_metadata-Keeps,
  transition-Keeps, append_event-Keeps,
}
use meristem.WorkItems.Service.{
  CreateInput, create, spawn_child, spawn_child_with_id, update_metadata, transition, append_event,
}

-- The methods that write, with their arguments, and the passing of time between them.
pub data Call : Type 0 where
  time_passes : ℕ → Call
  create_call : Context → CreateInput → Call
  spawn_call : Context → Uuid → CreateInput → Call
  spawn_with_id_call : Uuid → Uuid → CreateInput → Call
  update_call : Context → Uuid → List String → HumanReviewStatus → Token → Call
  transition_call : Context → Uuid → WorkItemState → String → Token → Call
  append_call : Context → Uuid → String → String → Token → Call

-- The state a call leaves.
unfoldable pub call : Env → Call → Store → Store
call env (time_passes d) s = record s { now = s.now + d }
call env (create_call ctx input) s = (run_tx (create env ctx input) s).1
call env (spawn_call ctx p input) s = (run_tx (spawn_child env ctx p input) s).1
call env (spawn_with_id_call p c input) s = (run_tx (spawn_child_with_id env p c input) s).1
call env (update_call ctx id checks review actor) s =
    (run_tx (update_metadata env ctx id checks review actor) s).1
call env (transition_call ctx id to reason actor) s =
    (run_tx (transition env ctx id to reason actor) s).1
call env (append_call ctx id kind inner actor) s =
    (run_tx (append_event env ctx id kind inner actor) s).1

unfoldable pub calls : Env → List Call → Store → Store
unfolding call
calls env [] s = s
calls env (c ∷ cs) s = calls env cs (call env c s)

module _ {P : Store → Type 0} (env : Env) (keep : (spec : Spec) → Keeps P (append env spec))
    (later : (s : Store) (t : ℕ) → P s → P (record s { now = t })) where
  call-kept : (c : Call) (s : Store) → P s → P (call env c s)
  unfolding call
  call-kept (time_passes d) = λ s h. later s (s.now + d) h
  call-kept (create_call ctx i) = run_tx-Keeps _ (create-Keeps env keep ctx i)
  call-kept (spawn_call ctx p i) = run_tx-Keeps _ (spawn_child-Keeps env keep ctx p i)
  call-kept (spawn_with_id_call p c i) = run_tx-Keeps _ (spawn_child_with_id-Keeps env keep p c i)
  call-kept (update_call ctx id cs r a) =
      run_tx-Keeps _ (update_metadata-Keeps env keep ctx id cs r a)
  call-kept (transition_call ctx id to r a) =
      run_tx-Keeps _ (transition-Keeps env keep ctx id to r a)
  call-kept (append_call ctx id k i a) = run_tx-Keeps _ (append_event-Keeps env keep ctx id k i a)

  -- What appends and the passing of time keep, sequences of calls keep.
  pub calls-kept : (cs : List Call) (s : Store) → P s → P (calls env cs s)
  unfolding calls
  calls-kept [] s h = h
  calls-kept (c ∷ cs) s h = calls-kept cs (call env c s) (call-kept c s h)

-- A database before its first event.
abbrev pub start : List Uuid → ℕ → Store
start tokens now = record { events = []; tables = empty_tables; tokens = tokens; now = now }

-- After any sequence of calls on an empty database, whether they succeed, fail or exhaust a budget,
-- the tables are those that replaying the event log through the projectors gives.
pub calls-replay :
    (env : Env) (cs : List Call) (tokens : List Uuid) (now : ℕ)
    → replay (calls env cs (start tokens now)).events empty_tables
      ≡ ok (calls env cs (start tokens now)).tables
unfolding replay
calls-replay env cs tokens now =
    (calls-kept env (append-IsDerived env) (λ s t h. record { rebuilt = h.rebuilt }) cs
      (start tokens now) (record { rebuilt = refl })).rebuilt

-- The log of `s` begins with `log`.
record Extends (log : List Event) (s : Store) : Type 0 where
  added : List Event
  extends : s.events ≡ log ++ added

append-Extends :
    (log : List Event) (env : Env) (spec : Spec) → Keeps (Extends log) (append env spec)
append-Extends log env spec = append-Keeps (Extends log) env spec λ s t h n v e.
    let x = event_of (env.digest spec.identity) s.now spec in
    record {
      added = h.added ++ x ∷ [];
      extends = ap (λ es. es ++ x ∷ []) h.extends ∙ append_assoc log h.added (x ∷ []);
    }

-- Calls only append to the event log: what was in it before them is a prefix of it after them.
pub calls-prefix :
    (env : Env) (cs : List Call) (s : Store)
    → (added : List Event) × ((calls env cs s).events ≡ s.events ++ added)
calls-prefix env cs s =
    let x =
      calls-kept env (append-Extends s.events env)
        (λ s' t h. record { added = h.added; extends = h.extends }) cs s
        (record { added = []; extends = sym (append-nil s.events) }) in
    (x.added, x.extends)
