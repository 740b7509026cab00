-- ===== src/WorkItems/Service.antt =====
-- The operations of internal/workitems/service.go. Each is a transaction; `run_tx` of it is the call
-- of the method. The read after the commit sees what the transaction left.
use meristem.Base.{
  ℕ, String, Bool, true, false, ◌&&◌, ◌||◌, not, Option, none, some, List, [], ◌∷◌, ◌==◌, ltb,
  str_eq, if◌then◌else◌, is_empty, trim_space, concat, show_ℕ,
}
use meristem.Base.Int.{ℤ, pos, negsuc}
use meristem.Domain.{
  Uuid, nil_uuid, Token, WorkItem, WorkItemState, HumanReviewStatus, EscalationRule, state_valid,
  state_eq, can_transition,
}
use meristem.Events.{
  SubjectKind, Created, created, transitioned, event_appended, relation_added, metadata_updated,
}
use meristem.Store.{
  Error, Result, Store, Tx, ok, err, pure, fail, gets, lift, find_item, not_found, invalid_request,
  invalid_state, invalid_transition, relation_cycle, convergence_checks_required, unknown_cultivar,
  ◌>>=◌, ◌>>◌,
}
use meristem.WorkItems.{Env, Context}
use meristem.WorkItems.Projectors.{normalize_checks, normalize_review, default_state, has_relation}
use meristem.WorkItems.Ancestry.{child_is_ancestor_of}
use meristem.WorkItems.Writer.{append}
use meristem.WorkItems.Escalation.{spec_of}
use meristem.WorkItems.Enforce.{
  enforce_child_count_budget, enforce_concurrent_running_budget, append_with_rate_budget,
}

pub record CreateInput : Type 0 where
  pub title : String
  pub body : String
  pub actor : Token
  pub state : WorkItemState
  pub checks : List String
  pub human_review_status : HumanReviewStatus
  pub cultivar : String
  pub patience_budget_seconds : ℤ
  pub escalation_rule : EscalationRule

-- safety.MaxPatienceBudget / time.Second
abbrev pub max_patience_seconds : ℕ
max_patience_seconds = 2_592_000

-- The cultivar of the payload, `none` where none is named.
created_cultivar : Env → String → Result (Option String)
created_cultivar env ref = if str_eq ref "" then ok none else elim (env.get_cultivar ref) [
  | none ↦ err (unknown_cultivar ref)
  | some c ↦ ok (some (concat (c.name ∷ "@" ∷ show_ℕ c.version ∷ [])))
]

created_patience : ℤ → Result (Option ℕ)
created_patience (negsuc _) = err (invalid_request "patience_budget_seconds must be >= 0")
created_patience (pos n) =
    if ltb max_patience_seconds n
    then err (invalid_request "patience_budget_seconds exceeds the finite cap")
    else if ltb 0 n
    then ok (some n)
    else ok none

-- normalizeEscalationRule
created_rule : EscalationRule → Result (Option EscalationRule)
created_rule EscalationRule.hand_to_human = ok (some EscalationRule.hand_to_human)
created_rule (EscalationRule.unknown s) =
    if str_eq s "" then ok none else err (invalid_request "invalid escalation_rule")

-- buildCreatedPayload
unfoldable pub build_created_payload :
    Env → CreateInput → WorkItemState → List String → HumanReviewStatus → Tx Created
unfolding created_cultivar created_patience created_rule
build_created_payload env input state checks review = do
  cultivar ← lift (created_cultivar env (trim_space input.cultivar))
  patience ← lift (created_patience input.patience_budget_seconds)
  rule ← lift (created_rule input.escalation_rule)
  pure (record {
    title = input.title;
    body = input.body;
    state = state;
    checks = checks;
    human_review_status = review;
    cultivar = cultivar;
    patience_budget_seconds = patience;
    escalation_rule = rule;
  })

-- What Create and SpawnChildWithID do before their transaction: it reads no table.
unfoldable pub prepare : Env → CreateInput → Tx Created
unfolding build_created_payload
prepare env input =
    if str_eq (trim_space input.title) ""
    then fail (invalid_request "title is required")
    else if not (state_valid (default_state input.state))
    then fail (invalid_state input.state)
    else do
      checks ← lift (normalize_checks input.checks)
      review ← lift (normalize_review input.human_review_status)
      build_created_payload env input (default_state input.state) checks review

unfoldable pub found : Option WorkItem → Result WorkItem
found none = err not_found
found (some w) = ok w

-- Get
unfoldable pub get_item : Uuid → Store → Result WorkItem
unfolding found
get_item id s = found (find_item id s.items)

-- scanWorkItemForUpdate
abbrev pub for_update : Uuid → Tx WorkItem
for_update id s = lift (get_item id s) s

-- Commits a budget error, else reads the item after the commit.
unfoldable pub settle : Uuid → Option Error → Tx (Result WorkItem)
settle id (some e) = pure (err e)
settle id none = gets (get_item id)

unfoldable pub create : Env → Context → CreateInput → Tx (Result WorkItem)
create env ctx input = do
  payload ← prepare env input
  append env (spec_of input.actor SubjectKind.work_item ctx.subject_id (created payload) "")
  gets (get_item ctx.subject_id)

unfoldable pub with_fresh : Bool → Result WorkItem → Result (WorkItem × Bool)
with_fresh fresh (ok w) = ok (w, fresh)
with_fresh fresh (err e) = err e

unfoldable pub add_child :
    Env → Uuid → Uuid → CreateInput → Created → Option Error → Tx (Result (WorkItem × Bool))
unfolding with_fresh
add_child env parent_id child_id input payload (some e) = pure (err e)
add_child env parent_id child_id input payload none = do
  a ← append env (spec_of input.actor SubjectKind.work_item child_id (created payload) "")
  b ←
      append env
        (spec_of input.actor SubjectKind.work_item parent_id (relation_added parent_id child_id) "")
  item ← gets (get_item child_id)
  pure (with_fresh (a.1 || b.1) item)

unfoldable pub spawn_child_with_id : Env → Uuid → Uuid → CreateInput → Tx (Result (WorkItem × Bool))
unfolding add_child
spawn_child_with_id env parent_id child_id input = do
  payload ← prepare env input
  if child_id == nil_uuid then fail (invalid_request "child id is required") else do
    parent ← for_update parent_id
    relations ← gets (λ s. s.relations)
    if child_id == parent_id || child_is_ancestor_of relations child_id parent_id
        then fail relation_cycle
        else do
          exhausted ←
              if has_relation relations parent_id child_id
              then pure none
              else enforce_child_count_budget env parent child_id input.title input.actor
          add_child env parent_id child_id input payload exhausted

unfoldable pub spawn_child : Env → Context → Uuid → CreateInput → Tx (Result (WorkItem × Bool))
unfolding spawn_child_with_id
spawn_child env ctx parent_id input = spawn_child_with_id env parent_id ctx.subject_id input

unfoldable pub update_metadata :
    Env → Context → Uuid → List String → HumanReviewStatus → Token → Tx (Result WorkItem)
unfolding settle
update_metadata env ctx id checks review actor = do
  checks' ← lift (normalize_checks checks)
  review' ← lift (normalize_review review)
  current ← for_update id
  exhausted ←
      append_with_rate_budget env current
        (spec_of actor SubjectKind.work_item id
          (metadata_updated
            (record { checks = current.checks; human_review_status = current.human_review_status })
            (record { checks = checks'; human_review_status = review' }))
          ctx.discriminator)
        "" actor
  settle id exhausted

abbrev is_early : WorkItemState → Bool
is_early WorkItemState.captured = true
is_early WorkItemState.triaged = true
is_early _ = false

abbrev needs_no_checks : WorkItemState → Bool
needs_no_checks WorkItemState.captured = true
needs_no_checks WorkItemState.triaged = true
needs_no_checks WorkItemState.blocked = true
needs_no_checks WorkItemState.failed = true
needs_no_checks WorkItemState.canceled = true
needs_no_checks _ = false

unfoldable pub checks_required : WorkItem → WorkItemState → Bool
checks_required current to =
    if not (is_empty current.checks)
    then false
    else if not (is_early current.state)
    then false
    else not (needs_no_checks to)

unfoldable pub move :
    Env
    → Context
    → WorkItem
    → Uuid
    → WorkItemState
    → String
    → Token
    → Option Error
    → Tx (Option Error)
move env ctx current id to reason actor (some e) = pure (some e)
move env ctx current id to reason actor none =
    append_with_rate_budget env current
      (spec_of actor SubjectKind.work_item id (transitioned current.state to reason)
        ctx.discriminator)
      "" actor

unfoldable pub transition :
    Env → Context → Uuid → WorkItemState → String → Token → Tx (Result WorkItem)
unfolding settle move
transition env ctx id to reason actor = if not (state_valid to) then fail (invalid_state to) else do
  current ← for_update id
  if not (can_transition current.state to)
      then fail (invalid_transition current.state to)
      else if checks_required current to
      then fail convergence_checks_required
      else do
        over ←
            if state_eq to WorkItemState.running
              && not (state_eq current.state WorkItemState.running)
            then enforce_concurrent_running_budget env current actor
            else pure none
        exhausted ← move env ctx current id to reason actor over
        settle id exhausted

unfoldable pub done_unless : Option Error → Tx (Result Unit)
done_unless (some e) = pure (err e)
done_unless none = pure (ok tt)

unfoldable pub append_event : Env → Context → Uuid → String → String → Token → Tx (Result Unit)
unfolding done_unless
append_event env ctx id inner_kind inner actor =
    if str_eq (trim_space inner_kind) ""
    then fail (invalid_request "event kind is required")
    else do
      current ← for_update id
      exhausted ←
          append_with_rate_budget env current
            (spec_of actor SubjectKind.work_item id (event_appended inner_kind inner)
              ctx.discriminator)
            inner_kind actor
      done_unless exhausted
