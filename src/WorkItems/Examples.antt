-- ===== src/WorkItems/Examples.antt =====
-- The operations of internal/workitems on a small database.
use meristem.Base.{
  ℕ, ◌+◌, ◌*◌, String, true, false, none, some, List, [], ◌∷◌, ◌≡◌, ◌↔◌, refl, sym, subst, arith,
  show_ℕ, trim_space, map, concat,
}
use meristem.Base.Int.{pos}
use mathlib.Core.Bool.{true≢false}
use meristem.Domain.{
  Uuid, Token, Source, WorkItem, WorkItemState, HumanReviewStatus, EscalationRule, can_transition,
}
use meristem.Events.{
  Payload, SubjectKind, Spec, created, transitioned, event_appended, relation_added,
  metadata_updated, xylem_exhausted, escalation_requested, checks_proposed,
}
use meristem.Store.{Store, Result, ok, err, run_tx, find_item}
use meristem.WorkItems.{Env, Context}
use meristem.WorkItems.Writer.{append, validate, event_of}
use meristem.WorkItems.Writer.Replay.{replay, empty_tables}
use meristem.WorkItems.Writer.Outcome.{append-idempotent}
use meristem.WorkItems.Escalation.{
  spec_of, request_xylem_escalation, escalation_exists, request_payload, human_item_payload,
}
use meristem.WorkItems.Ancestry.{Ancestor, parent, above, child_is_ancestor_of}
use meristem.WorkItems.Ancestry.Acyclic.{IsAcyclic, IsAcyclic-add}
use meristem.WorkItems.Ancestry.Decides.{child_is_ancestor_of_iff}
use meristem.WorkItems.Projectors.{update_item, project, normalize_checks, normalize_review}
use meristem.WorkItems.Service.{CreateInput, prepare, create, transition, get_item, checks_required}
use meristem.WorkItems.Budgets.{
  resolve_concurrent_running_budget, resolve_rule, work_item_launch_metadata, first_created,
  resolve_event_rate_budget,
}
use meristem.WorkItems.Enforce.{
  enforce_concurrent_running_budget, running_count_for_actor, append_with_rate_budget,
  enforce_event_rate_budget, counted_events_in_last_hour,
}
use meristem.Feed.Taxonomy.{classify}
use meristem.WorkItems.History.{
  Call, time_passes, create_call, spawn_call, spawn_with_id_call, transition_call, call, calls,
  start, calls-replay,
}
use meristem.WorkItems.Graph.{IsGraph, HumansAreFresh}
use meristem.WorkItems.Graph.Safety.{call-IsGraph, calls-acyclic}
use meristem.WorkItems.Transitions.{IsMoved, transition-IsMoved}

-- A number to each payload that these calls write.
abbrev payload_number : Payload → ℕ
payload_number (created _) = 1
payload_number (transitioned _ _ _) = 2
payload_number (event_appended _ _) = 3
payload_number (relation_added p c) = 10 + c
payload_number (metadata_updated _ _) = 4
payload_number (xylem_exhausted _) = 5
payload_number (escalation_requested _) = 6
payload_number (checks_proposed _) = 7
payload_number (Payload.other _ _) = 8

abbrev test_env : Env
test_env = record {
  digest = λ i. i.subject_id * 100 + payload_number i.payload;
  escalation_id = λ id reason summary. 500 + id;
  human_work_item_id = λ id. 1000 + id;
  uuid_text = show_ℕ;
  get_cultivar = λ ref. none;
}

abbrev agent : Token
agent = record {
  id = 7;
  name = "agent";
  is_root = false;
  scopes = [];
  source = Source.agent;
  revoked_at = none;
}

abbrev titled : String → CreateInput
titled title = record {
  title = title;
  body = "";
  actor = agent;
  state = WorkItemState.captured;
  checks = "tests" ∷ [];
  human_review_status = HumanReviewStatus.approved;
  cultivar = "";
  patience_budget_seconds = pos 0;
  escalation_rule = EscalationRule.unknown "";
}

abbrev at_id : Uuid → Context
at_id id = record { discriminator = ""; subject_id = id }

-- An item, later its child, and a transition of the child.
abbrev three_calls : List Call
three_calls =
    create_call (at_id 1) (titled "root")
    ∷ time_passes 40
    ∷ spawn_with_id_call 1 2 (titled "child")
    ∷ transition_call (at_id 0) 2 WorkItemState.running "start" agent
    ∷ []

abbrev tokens : List Uuid
tokens = 7 ∷ []

calls-replay_example :
    replay (calls test_env three_calls (start tokens 5)).events empty_tables
    ≡ ok (calls test_env three_calls (start tokens 5)).tables
calls-replay_example = calls-replay test_env three_calls tokens 5

abbrev row : Uuid → WorkItemState → WorkItem
row id state = record {
  id = id;
  title = "item";
  body = "";
  state = state;
  state_reason = none;
  checks = "tests" ∷ [];
  human_review_status = HumanReviewStatus.approved;
  created_by = none;
  created_at = 1;
  state_entered_at = 1;
  updated_at = 1;
}

-- Two items, the first a parent of the second.
abbrev family : Store
family = record {
  events = [];
  tables = record {
    items = row 1 WorkItemState.triaged ∷ row 2 WorkItemState.planned ∷ [];
    relations = (1, 2) ∷ [];
  };
  tokens = tokens;
  now = 9;
}

no-Ancestor : {x y : Uuid} → ¬ Ancestor [] x y
no-Ancestor (parent r) = true≢false (sym r)
no-Ancestor (above r h) = true≢false (sym r)

family-IsAcyclic : IsAcyclic family.relations
family-IsAcyclic = IsAcyclic-add [] 1 2 (λ x. no-Ancestor) (λ e. ground (arith, e)) no-Ancestor

family-IsGraph : IsGraph family.tables
family-IsGraph = record {
  acyclic = family-IsAcyclic;
  parent_row = λ a x h. ground (arith, h);
  child_row = λ a x h. ground (arith, h);
}

family_humans : HumansAreFresh test_env family
family_humans = λ id h. ground arith

call-IsGraph_example :
    IsGraph (call test_env (spawn_with_id_call 2 3 (titled "grandchild")) family).tables
call-IsGraph_example =
    call-IsGraph test_env (spawn_with_id_call 2 3 (titled "grandchild")) family family-IsGraph
      family_humans

child_is_ancestor_of_iff_example :
    (child_is_ancestor_of family.relations 1 2 ≡ true) ↔ Ancestor family.relations 1 2
child_is_ancestor_of_iff_example = child_is_ancestor_of_iff family.relations 1 2

abbrev started : WorkItem
started = record (row 2 WorkItemState.running) {
  state_reason = some "start";
  state_entered_at = 9;
  updated_at = 9;
}

abbrev start_spec : Spec
start_spec =
    spec_of agent SubjectKind.work_item 2
      (transitioned WorkItemState.planned WorkItemState.running "start") ""

abbrev family_started : Store
family_started = record family {
  events = event_of 202 9 start_spec ∷ [];
  tables = record { items = row 1 WorkItemState.triaged ∷ started ∷ []; relations = (1, 2) ∷ [] };
}

child_starts :
    run_tx (transition test_env (at_id 0) 2 WorkItemState.running "start" agent) family
    ≡ (ok started, family_started)
unfolding transition can_transition update_item project append get_item find_item checks_required
    enforce_concurrent_running_budget resolve_concurrent_running_budget resolve_rule
    work_item_launch_metadata first_created running_count_for_actor append_with_rate_budget validate
    classify enforce_event_rate_budget resolve_event_rate_budget counted_events_in_last_hour
child_starts = refl

transition-IsMoved_example :
    IsMoved test_env (at_id 0) 2 WorkItemState.running "start" agent family started family_started
transition-IsMoved_example =
    transition-IsMoved test_env (at_id 0) 2 WorkItemState.running "start" agent family started
      family_started child_starts

first_append : append test_env start_spec family ≡ ok ((202, true), family_started)
unfolding append validate project update_item
first_append = refl

append-idempotent_example :
    append test_env (record start_spec { source = Source.system }) family_started
    ≡ ok ((202, false), family_started)
unfolding validate
append-idempotent_example =
    append-idempotent test_env start_spec (record start_spec { source = Source.system }) family
      family_started 202 true refl refl first_append

abbrev two_creations : List Call
two_creations = create_call (at_id 1) (titled "root") ∷ spawn_call (at_id 2) 1 (titled "child") ∷ []

abbrev root_input : Spec
root_input =
    spec_of agent SubjectKind.work_item 1
      (created (record {
        title = "root";
        body = "";
        state = WorkItemState.captured;
        checks = "tests" ∷ [];
        human_review_status = HumanReviewStatus.approved;
        cultivar = none;
        patience_budget_seconds = none;
        escalation_rule = none;
      }))
      ""

abbrev root_store : Store
root_store = record {
  events = event_of 101 5 root_input ∷ [];
  tables = record {
    items =
        record (row 1 WorkItemState.captured) {
          title = "root";
          created_by = some 7;
          created_at = 5;
          state_entered_at = 5;
          updated_at = 5;
        }
        ∷ [];
    relations = [];
  };
  tokens = tokens;
  now = 5;
}

root_created : call test_env (create_call (at_id 1) (titled "root")) (start tokens 5) ≡ root_store
unfolding call create append validate project prepare trim_space normalize_checks normalize_review
    find_item
root_created = refl

root_is_no_human :
    HumansAreFresh test_env (call test_env (create_call (at_id 1) (titled "root")) (start tokens 5))
root_is_no_human = subst (HumansAreFresh test_env) (sym root_created) λ id h. ground arith

calls-acyclic_example : ¬ Ancestor (calls test_env two_creations (start tokens 5)).relations 2 2
calls-acyclic_example =
    calls-acyclic test_env two_creations tokens 5 2 ((λ id h. refl), (root_is_no_human, tt))

abbrev finished : Store
finished = record family {
  tables = record { items = row 1 WorkItemState.done ∷ []; relations = [] };
}

abbrev states_after : {A : Type 0} → Result (A × Store) → List WorkItemState
states_after (ok (_, t)) = map (λ w. w.state) t.items
states_after (err _) = []

-- The escalation moves an item that is done to blocked, which CanTransition refuses.
done_is_blocked :
    (states_after
        (request_xylem_escalation test_env (row 1 WorkItemState.done) "why" "what" agent finished)
      ≡ WorkItemState.blocked ∷ WorkItemState.captured ∷ [])
    × (can_transition WorkItemState.done WorkItemState.blocked ≡ false)
unfolding request_xylem_escalation can_transition escalation_exists append validate project
    request_payload human_item_payload concat normalize_checks trim_space normalize_review find_item
    update_item
done_is_blocked = (refl, refl)
