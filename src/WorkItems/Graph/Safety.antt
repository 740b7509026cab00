-- ===== src/WorkItems/Graph/Safety.antt =====
-- Calls of the methods of internal/workitems/service.go leave work_item_relations without a cycle.
use meristem.Base.{List, [], ◌∷◌, ℕ, sym}
use mathlib.Core.Bool.{true≢false}
use meristem.Domain.{Uuid}
use meristem.Store.{Store, Tx, Result, run_tx}
use meristem.Store.Triples.{Triple, run_tx-Triple}
use meristem.WorkItems.{Env}
use meristem.WorkItems.Ancestry.{Ancestor, parent, above}
use meristem.WorkItems.Service.{spawn_child}
use meristem.WorkItems.History.{
  Call, time_passes, create_call, spawn_call, spawn_with_id_call, update_call, transition_call,
  append_call, call, calls, start,
}
use meristem.WorkItems.Graph.{IsGraph, HumansAreFresh}
use meristem.WorkItems.Graph.Calls.{
  IsSound, create-Graph, update_metadata-Graph, append_event-Graph, transition-Graph,
  spawn_child_with_id-Graph,
}

kept :
    {A : Type 0} (env : Env) (m : Tx (Result A))
    → Triple (IsSound env) m (λ s. IsGraph s.tables)
    → (s : Store) → IsSound env s
    → IsGraph (run_tx m s).1.tables
kept env m k s h = run_tx-Triple m (λ s' r. r.graph) k s h

-- A call of any method of the service, whether it succeeds, fails or exhausts a budget, leaves
-- relations between rows that are there and without a cycle, where the call finds such relations
-- and the human work item of an escalation not requested yet is not among the rows.
pub call-IsGraph :
    (env : Env) (c : Call) (s : Store)
    → IsGraph s.tables
    → HumansAreFresh env s
    → IsGraph (call env c s).tables
unfolding call spawn_child
call-IsGraph env (time_passes d) s g h = g
call-IsGraph env (create_call ctx i) s g h =
    kept env _ (create-Graph env ctx i) s (record { graph = g; humans = h })
call-IsGraph env (spawn_call ctx p i) s g h =
    kept env _ (spawn_child_with_id-Graph env p ctx.subject_id i) s
      (record { graph = g; humans = h })
call-IsGraph env (spawn_with_id_call p c i) s g h =
    kept env _ (spawn_child_with_id-Graph env p c i) s (record { graph = g; humans = h })
call-IsGraph env (update_call ctx id cs r a) s g h =
    kept env _ (update_metadata-Graph env ctx id cs r a) s (record { graph = g; humans = h })
call-IsGraph env (transition_call ctx id to r a) s g h =
    kept env _ (transition-Graph env ctx id to r a) s (record { graph = g; humans = h })
call-IsGraph env (append_call ctx id k i a) s g h =
    kept env _ (append_event-Graph env ctx id k i a) s (record { graph = g; humans = h })

-- Before each of the calls, the human work item of an escalation not requested yet is not there.
abbrev pub StaysFresh : Env → List Call → Store → Type 0
StaysFresh env [] s = Unit
StaysFresh env (c ∷ cs) s = HumansAreFresh env s × StaysFresh env cs (call env c s)

calls-kept-IsGraph :
    (env : Env) (cs : List Call) (s : Store)
    → IsGraph s.tables
    → StaysFresh env cs s
    → IsGraph (calls env cs s).tables
unfolding calls
calls-kept-IsGraph env [] s g f = g
calls-kept-IsGraph env (c ∷ cs) s g f =
    calls-kept-IsGraph env cs (call env c s) (call-IsGraph env c s g f.0) f.1

empty_acyclic : {x y : Uuid} → ¬ Ancestor [] x y
empty_acyclic (parent r) = true≢false (sym r)
empty_acyclic (above r h) = true≢false (sym r)

-- In a database that calls made from an empty one, no work item is its own ancestor, where before
-- each call the human work item of an escalation not requested yet is not there.
pub calls-acyclic :
    (env : Env) (cs : List Call) (tokens : List Uuid) (now : ℕ) (x : Uuid)
    → StaysFresh env cs (start tokens now)
    → ¬ Ancestor (calls env cs (start tokens now)).relations x x
calls-acyclic env cs tokens now x f =
    (calls-kept-IsGraph env cs (start tokens now)
        (record {
          acyclic = λ y. empty_acyclic;
          parent_row = λ a y r. absurd (true≢false (sym r));
          child_row = λ a y r. absurd (true≢false (sym r));
        })
        f).acyclic
      x
