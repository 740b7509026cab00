-- ===== src/WorkItems/Derived.antt =====
-- What every append keeps, every operation of the service keeps. The appends of relations are apart:
-- the escalation of an exhausted budget makes one, and so does SpawnChild.
use meristem.Base.{String, Option, none, some, List}
use meristem.Domain.{Uuid, Token, WorkItem, WorkItemState, HumanReviewStatus, EscalationRule}
use meristem.Events.{Spec, Exhaustion, Payload, Created}
use meristem.Feed.Taxonomy.{KindClass}
use meristem.Store.{Store, Error}
use meristem.Store.Keeps.{Keeps, Keeps-lift, keeps_rules}
use meristem.WorkItems.Service.{
  CreateInput, prepare, build_created_payload, get_item, for_update, settle, create, add_child,
  spawn_child_with_id, spawn_child, update_metadata, move, transition, done_unless, append_event,
}
use meristem.WorkItems.{Env, Context}
use meristem.WorkItems.Writer.{append}
use meristem.WorkItems.Escalation.{append_escalation, request_xylem_escalation}
use meristem.WorkItems.Enforce.{
  check_rule, exhaust, enforce_child_count_budget, enforce_concurrent_running_budget,
  enforce_event_rate_budget, append_unless, append_classified, check_spec, append_with_rate_budget,
  lock_actor_token,
}

module _ {P : Store → Type 0} (env : Env) (keep : (spec : Spec) → Keeps P (append env spec)) where
  append_escalation-Keeps :
      (w : WorkItem) (reason summary : String) (actor : Token)
      → Keeps P (append_escalation env w reason summary actor)
  unfolding append_escalation
  append_escalation-Keeps w reason summary actor = search (keeps_rules, keep) depth 14

  pub escalation-Keeps :
      (w : WorkItem) (reason summary : String) (actor : Token)
      → Keeps P (request_xylem_escalation env w reason summary actor)
  unfolding request_xylem_escalation
  escalation-Keeps w reason summary actor = search (keeps_rules, append_escalation-Keeps) depth 10

  check_rule-Keeps : (r : EscalationRule) → Keeps P (check_rule r)
  unfolding check_rule
  check_rule-Keeps EscalationRule.hand_to_human = search keeps_rules
  check_rule-Keeps _ = search keeps_rules

  exhaust-Keeps :
      (w : WorkItem) (x : Exhaustion) (r : EscalationRule) (reason summary : String) (actor : Token)
      → Keeps P (exhaust env w x r reason summary actor)
  unfolding exhaust
  exhaust-Keeps w x r reason summary actor =
      search (keeps_rules, keep, check_rule-Keeps, escalation-Keeps) depth 10

  child_budget-Keeps :
      (w : WorkItem) (child : Uuid) (title : String) (actor : Token)
      → Keeps P (enforce_child_count_budget env w child title actor)
  unfolding enforce_child_count_budget
  child_budget-Keeps w child title actor = search (keeps_rules, exhaust-Keeps) depth 10

  lock-Keeps : (id : Uuid) → Keeps P (lock_actor_token id)
  unfolding lock_actor_token
  lock-Keeps id = search keeps_rules

  running_budget-Keeps :
      (w : WorkItem) (actor : Token) → Keeps P (enforce_concurrent_running_budget env w actor)
  unfolding enforce_concurrent_running_budget
  running_budget-Keeps w actor = search (keeps_rules, exhaust-Keeps, lock-Keeps) depth 10

  rate_budget-Keeps :
      (w : WorkItem) (id : Uuid) (p : Payload) (inner : String) (c : KindClass) (actor : Token)
      → Keeps P (enforce_event_rate_budget env w id p inner c actor)
  unfolding enforce_event_rate_budget
  rate_budget-Keeps w id p inner c actor = search (keeps_rules, exhaust-Keeps) depth 10

  append_unless-Keeps : (spec : Spec) (o : Option Error) → Keeps P (append_unless env spec o)
  unfolding append_unless
  append_unless-Keeps spec (some e) = search keeps_rules
  append_unless-Keeps spec none = search (keeps_rules, keep)

  append_classified-Keeps :
      (w : WorkItem) (spec : Spec) (inner : String) (actor : Token) (c : Option KindClass)
      → Keeps P (append_classified env w spec inner actor c)
  unfolding append_classified
  append_classified-Keeps w spec inner actor none = search keeps_rules
  append_classified-Keeps w spec inner actor (some c) =
      search (keeps_rules, rate_budget-Keeps, append_unless-Keeps)

  check_spec-Keeps : (o : Option Error) → Keeps P (check_spec o)
  unfolding check_spec
  check_spec-Keeps none = search keeps_rules
  check_spec-Keeps (some e) = search keeps_rules

  append_with_rate_budget-Keeps :
      (w : WorkItem) (spec : Spec) (inner : String) (actor : Token)
      → Keeps P (append_with_rate_budget env w spec inner actor)
  unfolding append_with_rate_budget
  append_with_rate_budget-Keeps w spec inner actor =
      search (keeps_rules, check_spec-Keeps, append_classified-Keeps) depth 10

  settle-Keeps : (id : Uuid) (o : Option Error) → Keeps P (settle id o)
  unfolding settle
  settle-Keeps id none = search keeps_rules
  settle-Keeps id (some e) = search keeps_rules

  for_update-Keeps : (id : Uuid) → Keeps P (for_update id)
  for_update-Keeps id = record { at = λ s h. (Keeps-lift (get_item id s)).at s h }

  prepare-Keeps : (input : CreateInput) → Keeps P (prepare env input)
  unfolding prepare build_created_payload
  prepare-Keeps input = search keeps_rules depth 12

  pub create-Keeps : (ctx : Context) (input : CreateInput) → Keeps P (create env ctx input)
  unfolding create
  create-Keeps ctx input = search (keeps_rules, keep, prepare-Keeps) depth 8

  pub update_metadata-Keeps :
      (ctx : Context) (id : Uuid) (checks : List String) (review : HumanReviewStatus)
      (actor : Token)
      → Keeps P (update_metadata env ctx id checks review actor)
  unfolding update_metadata
  update_metadata-Keeps ctx id checks review actor =
      search (keeps_rules, for_update-Keeps, append_with_rate_budget-Keeps, settle-Keeps) depth 12

  move-Keeps :
      (ctx : Context) (w : WorkItem) (id : Uuid) (to : WorkItemState) (reason : String)
      (actor : Token) (o : Option Error)
      → Keeps P (move env ctx w id to reason actor o)
  unfolding move
  move-Keeps ctx w id to reason actor (some e) = search keeps_rules
  move-Keeps ctx w id to reason actor none = search append_with_rate_budget-Keeps

  pub transition-Keeps :
      (ctx : Context) (id : Uuid) (to : WorkItemState) (reason : String) (actor : Token)
      → Keeps P (transition env ctx id to reason actor)
  unfolding transition
  transition-Keeps ctx id to reason actor =
      search (keeps_rules, for_update-Keeps, running_budget-Keeps, move-Keeps, settle-Keeps) depth
        14

  done_unless-Keeps : (o : Option Error) → Keeps P (done_unless o)
  unfolding done_unless
  done_unless-Keeps none = search keeps_rules
  done_unless-Keeps (some e) = search keeps_rules

  pub append_event-Keeps :
      (ctx : Context) (id : Uuid) (inner_kind inner : String) (actor : Token)
      → Keeps P (append_event env ctx id inner_kind inner actor)
  unfolding append_event
  append_event-Keeps ctx id inner_kind inner actor =
      search (keeps_rules, for_update-Keeps, append_with_rate_budget-Keeps, done_unless-Keeps) depth
        12

  add_child-Keeps :
      (p c : Uuid) (input : CreateInput) (payload : Created) (o : Option Error)
      → Keeps P (add_child env p c input payload o)
  unfolding add_child
  add_child-Keeps p c input payload (some e) = search keeps_rules
  add_child-Keeps p c input payload none = search (keeps_rules, keep) depth 14

  pub spawn_child_with_id-Keeps :
      (p c : Uuid) (input : CreateInput) → Keeps P (spawn_child_with_id env p c input)
  unfolding spawn_child_with_id
  spawn_child_with_id-Keeps p c input =
      search (keeps_rules, prepare-Keeps, for_update-Keeps, child_budget-Keeps, add_child-Keeps)
        depth 14

  pub spawn_child-Keeps :
      (ctx : Context) (p : Uuid) (input : CreateInput) → Keeps P (spawn_child env ctx p input)
  unfolding spawn_child
  spawn_child-Keeps ctx p input = spawn_child_with_id-Keeps p ctx.subject_id input
