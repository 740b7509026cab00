-- ===== src/WorkItems/Enforce.antt =====
-- The enforcement of the xylem budgets of internal/workitems/service.go: what is counted, and the
-- event, escalation and error of an exhausted budget.
use meristem.Base.{
  ℕ, ◌+◌, String, Bool, true, false, ◌&&◌, ◌||◌, not, Option, none, some, List, [], ◌∷◌, ◌==◌, ltb,
  leb, str_eq, if◌then◌else◌, any, concat, show_ℕ, count_if, contains_id,
}
use meristem.Domain.{Uuid, nil_uuid, Token, WorkItem, WorkItemState, EscalationRule, state_eq}
use meristem.Events.{
  SubjectKind, Exhausted, Exhaustion, Payload, Event, Spec, created, transitioned, xylem_exhausted,
  escalation_requested, kind_of,
}
use meristem.Feed.Taxonomy.{KindClass, classify, class_eq}
use meristem.Store.{
  Error, Store, Tx, pure, fail, gets, lift, invalid_request, xylem_budget_exhausted, unclassified,
  unexpected_event_dedupe, actor_token_missing, ◌>>=◌, ◌>>◌,
}
use meristem.WorkItems.{Env}
use meristem.WorkItems.Projectors.{default_state}
use meristem.WorkItems.Writer.{append, validate, event_exists}
use meristem.WorkItems.Escalation.{spec_of, request_xylem_escalation}
use meristem.WorkItems.Budgets.{
  Budget, resolve_child_count_budget, resolve_concurrent_running_budget, resolve_event_rate_budget,
  class_text,
}

-- An escalation.requested event of the parent whose human work item is the child.
abbrev escalates : Uuid → Uuid → Payload → Bool
escalates parent child (escalation_requested r) =
    r.work_item_id == parent && r.human_work_item_id == child
escalates parent child _ = false

unfoldable pub counted_child_count : Uuid → Store → ℕ
counted_child_count parent s =
    count_if (λ r. r.0 == parent && not (any (λ e. escalates parent r.1 e.payload) s.events))
      s.relations

-- The event that put an item into running: what the LATERAL query tests.
abbrev enters_running : Payload → Bool
enters_running (created p) = state_eq (default_state p.state) WorkItemState.running
enters_running (transitioned _ to _) = state_eq to WorkItemState.running
enters_running _ = false

abbrev is_work_item : SubjectKind → Bool
is_work_item SubjectKind.work_item = true
is_work_item _ = false

abbrev same_actor : Uuid → Option Uuid → Bool
same_actor actor none = false
same_actor actor (some id) = id == actor

-- LIMIT 1 without an order: the first in the log.
unfoldable pub entered_by : Uuid → WorkItem → List Event → Bool
entered_by actor w [] = false
entered_by actor w (e ∷ es) =
    let rest = entered_by actor w es in
    if is_work_item e.subject_kind
      && e.subject_id == w.id
      && e.occurred_at == w.state_entered_at
      && enters_running e.payload
    then same_actor actor e.actor_token_id
    else rest

unfoldable pub running_count_for_actor : Uuid → Uuid → Store → ℕ
unfolding entered_by
running_count_for_actor excluding actor s =
    count_if
      (λ w.
        state_eq w.state WorkItemState.running
        && not (w.id == excluding)
        && entered_by actor w s.events)
      s.items

-- interval '1 hour', in microseconds.
abbrev pub hour : ℕ
hour = 3_600_000_000

abbrev in_class : KindClass → Option KindClass → Bool
in_class class none = false
in_class class (some c) = class_eq c class

unfoldable pub counted_events_in_last_hour : Uuid → KindClass → Store → ℕ
counted_events_in_last_hour id class s =
    count_if
      (λ e.
        is_work_item e.subject_kind
        && e.subject_id == id
        && leb s.now (e.occurred_at + hour)
        && in_class class (classify e.payload))
      s.events

-- The keys that the payloads share.
abbrev exhausted_of : WorkItem → ℕ → Budget → Exhausted
exhausted_of item current b = record {
  current = current;
  max = b.max;
  budget_source = b.source;
  cultivar = b.cultivar;
  escalation_rule = b.escalation_rule;
  item_state = item.state;
}

-- `switch budget.EscalationRule`
unfoldable pub check_rule : EscalationRule → Tx Unit
check_rule EscalationRule.hand_to_human = pure tt
check_rule _ = fail (invalid_request "workitems: unknown escalation rule")

-- What the three enforcements do past their test: the budget error is returned and not raised.
unfoldable pub exhaust :
    Env → WorkItem → Exhaustion → EscalationRule → String → String → Token → Tx (Option Error)
unfolding check_rule
exhaust env item payload rule reason summary actor = do
  append env (spec_of actor SubjectKind.work_item item.id (xylem_exhausted payload) "")
  check_rule rule
  request_xylem_escalation env item reason summary actor
  pure (some (xylem_budget_exhausted reason))

count_summary : Env → WorkItem → String → ℕ → Budget → List String → String
count_summary env item what current b more = concat (
    "Work item "
    ∷ env.uuid_text item.id
    ∷ " ("
    ∷ item.title
    ∷ ") exhausted "
    ∷ what
    ∷ show_ℕ current
    ∷ " max="
    ∷ show_ℕ b.max
    ∷ concat more
    ∷ " source="
    ∷ b.source
    ∷ [])

child_count_reason : String
child_count_reason = "xylem budget exhausted: max_children_per_item"

unfoldable pub enforce_child_count_budget :
    Env → WorkItem → Uuid → String → Token → Tx (Option Error)
unfolding exhaust count_summary child_count_reason
enforce_child_count_budget env parent child_id title actor = do
  log ← gets (λ s. s.events)
  budget ← lift (resolve_child_count_budget env parent.id log)
  current ← gets (counted_child_count parent.id)
  if ltb current budget.max
      then pure none
      else exhaust env parent
          (Exhaustion.children (exhausted_of parent current budget) child_id title)
          budget.escalation_rule child_count_reason
          (count_summary env parent "max_children_per_item: current_children=" current budget [])
          actor

-- lockActorToken
unfoldable pub lock_actor_token : Uuid → Tx Unit
lock_actor_token actor = do
  tokens ← gets (λ s. s.tokens)
  if actor == nil_uuid || not (contains_id tokens actor) then fail actor_token_missing else pure tt

running_reason : String
running_reason = "xylem budget exhausted: max_concurrent_running_items_per_token"

unfoldable pub enforce_concurrent_running_budget : Env → WorkItem → Token → Tx (Option Error)
unfolding exhaust count_summary running_reason lock_actor_token
enforce_concurrent_running_budget env item actor = do
  lock_actor_token actor.id
  log ← gets (λ s. s.events)
  budget ← lift (resolve_concurrent_running_budget env item.id log)
  current ← gets (running_count_for_actor item.id actor.id)
  if ltb current budget.max
      then pure none
      else exhaust env item (Exhaustion.running (exhausted_of item current budget) actor.id)
          budget.escalation_rule running_reason
          (count_summary env item
            (concat (
              "max_concurrent_running_items_per_token for actor token "
              ∷ env.uuid_text actor.id
              ∷ ": current_running="
              ∷ []))
            current budget [])
          actor

rate_reason : KindClass → String
rate_reason class =
    concat
      ("xylem budget exhausted: max_events_per_item_per_hour_by_class:" ∷ class_text class ∷ [])

unfoldable pub enforce_event_rate_budget :
    Env → WorkItem → Uuid → Payload → String → KindClass → Token → Tx (Option Error)
unfolding exhaust count_summary rate_reason
enforce_event_rate_budget env item event_id payload inner_kind class actor = do
  log ← gets (λ s. s.events)
  budget ← lift (resolve_event_rate_budget env item.id class log)
  current ← gets (counted_events_in_last_hour item.id class)
  if ltb current budget.max
      then pure none
      else exhaust env item
          (Exhaustion.events (exhausted_of item current budget) (class_text class) event_id
            (kind_of payload) inner_kind actor.id)
          budget.escalation_rule (rate_reason class)
          (count_summary env item
            (concat (
              "max_events_per_item_per_hour_by_class for class "
              ∷ class_text class
              ∷ ": current_events="
              ∷ []))
            current budget (" window_seconds=3600" ∷ []))
          actor

unfoldable pub append_unless : Env → Spec → Option Error → Tx (Option Error)
append_unless env spec (some e) = pure (some e)
append_unless env spec none = do append env spec; pure none

unfoldable pub append_classified :
    Env → WorkItem → Spec → String → Token → Option KindClass → Tx (Option Error)
unfolding append_unless
append_classified env item spec inner_kind actor none = fail unclassified
append_classified env item spec inner_kind actor (some class) = do
  exhausted ←
      enforce_event_rate_budget env item (env.digest spec.identity) spec.payload inner_kind class
        actor
  append_unless env spec exhausted

-- DeterministicID fails where validate does.
unfoldable pub check_spec : Option Error → Tx Unit
check_spec none = pure tt
check_spec (some e) = fail e

unfoldable pub append_with_rate_budget : Env → WorkItem → Spec → String → Token → Tx (Option Error)
unfolding append_classified check_spec
append_with_rate_budget env item spec inner_kind actor = do
  check_spec (validate spec)
  exists ← gets (λ s. event_exists (env.digest spec.identity) s.events)
  if exists
      then (if str_eq spec.discriminator "" then fail unexpected_event_dedupe else pure none)
      else append_classified env item spec inner_kind actor (classify spec.payload)
