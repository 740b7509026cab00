-- ===== src/WorkItems/Quiet.antt =====
-- The enforcement of a budget that is not exhausted writes nothing.
use meristem.Base.{String}
use meristem.Domain.{Uuid, Token, WorkItem, EscalationRule}
use meristem.Events.{Exhaustion, Payload}
use meristem.Feed.Taxonomy.{KindClass}
use meristem.Store.Quiet.{
  Reads, Quiet, Quiet-Reports, Reports, reads_rules, quiet_rules, reports_rules,
}
use meristem.WorkItems.{Env}
use meristem.WorkItems.Enforce.{
  exhaust, enforce_child_count_budget, enforce_concurrent_running_budget, enforce_event_rate_budget,
  lock_actor_token,
}

module _ (env : Env) (w : WorkItem) where
  exhaust-Reports :
      (x : Exhaustion) (r : EscalationRule) (reason summary : String) (actor : Token)
      → Reports (exhaust env w x r reason summary actor)
  unfolding exhaust
  exhaust-Reports x r reason summary actor = search reports_rules depth 10

  exhaust-Quiet :
      (x : Exhaustion) (r : EscalationRule) (reason summary : String) (actor : Token)
      → Quiet (exhaust env w x r reason summary actor)
  exhaust-Quiet x r reason summary actor =
      Quiet-Reports _ (exhaust-Reports x r reason summary actor)

  pub child_budget-Quiet :
      (child : Uuid) (title : String) (actor : Token)
      → Quiet (enforce_child_count_budget env w child title actor)
  unfolding enforce_child_count_budget
  child_budget-Quiet child title actor = search (quiet_rules, exhaust-Quiet) depth 12

  lock-Reads : (id : Uuid) → Reads (lock_actor_token id)
  unfolding lock_actor_token
  lock-Reads id = search reads_rules

  pub running_budget-Quiet : (actor : Token) → Quiet (enforce_concurrent_running_budget env w actor)
  unfolding enforce_concurrent_running_budget
  running_budget-Quiet actor = search (quiet_rules, exhaust-Quiet, lock-Reads) depth 12

  pub rate_budget-Quiet :
      (id : Uuid) (p : Payload) (inner : String) (c : KindClass) (actor : Token)
      → Quiet (enforce_event_rate_budget env w id p inner c actor)
  unfolding enforce_event_rate_budget
  rate_budget-Quiet id p inner c actor = search (quiet_rules, exhaust-Quiet) depth 12
