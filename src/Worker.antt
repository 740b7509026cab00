-- ===== src/Worker.antt =====
-- internal/worker: patience (worker.go, patience_rules.go, patience_attention.go), the routing of
-- breaches (dispatch_driver.go), and in Worker/Drive the convergence driver. Times and durations are
-- nanoseconds. The cultivar registry and what the writing calls answer are parameters.
pub mod Patience
pub mod Pass
pub mod Drive
pub mod Scan
pub mod Examples
use meristem.Base.{
  ℕ, ◌+◌, ◌-◌, ◌*◌, ◌/◌, ◌<◌, String, Bool, true, false, ◌&&◌, ◌||◌, not, Option, none, some, List,
  [], ◌∷◌, ltb, leb, str_eq, ◌==◌, if◌then◌else◌, trim_space, cut, concat, show_ℕ, has_prefix,
}
use meristem.Base.Int.{ℤ, pos, negsuc}
use meristem.Domain.{
  Uuid, WorkItemState, state_valid, state_eq, terminal, HumanReviewStatus, EscalationRule,
  rule_valid,
}
use meristem.Safety.{second, max_patience_budget, patience_of, positive}

abbrev pub Budgets : Type 0
Budgets = List (WorkItemState × ℤ)

pub data BudgetsError : Type 0 where
  unknown_state terminal_state negative_budget : WorkItemState → BudgetsError

abbrev is_negative : ℤ → Bool
is_negative (pos _) = false
is_negative (negsuc _) = true

-- Budgets.validate
unfoldable pub validate_budgets : Budgets → Option BudgetsError
validate_budgets [] = none
validate_budgets ((s, d) ∷ bs) =
    let rest = validate_budgets bs in
    if not (state_valid s)
    then some (unknown_state s)
    else if terminal s
    then some (terminal_state s)
    else if is_negative d
    then some (negative_budget s)
    else rest

-- launchMetadata, a missing key as the zero value.
pub record LaunchMetadata : Type 0 where
  pub cultivar : String
  pub patience_budget_seconds : ℤ
  pub escalation_rule : EscalationRule

-- What GetCultivarRef returns, as far as the worker reads it.
pub record WallClock : Type 0 where
  pub name : String
  pub version : ℕ
  pub max_wall_seconds : ℤ

pub data BudgetSource : Type 0 where
  item cultivar policy_profile : BudgetSource

pub record Resolution : Type 0 where
  pub budget : ℤ
  pub budget_source : BudgetSource
  pub escalation_rule : EscalationRule
  pub cultivar : String

pub data PatienceError : Type 0 where
  bad_metadata : PatienceError
  invalid_rule : EscalationRule → PatienceError
  negative_patience : PatienceError
  unknown_cultivar : PatienceError
  non_positive_wall : String → PatienceError

pub data Resolved : Type 0 where
  ok : Resolution → Resolved
  err : PatienceError → Resolved

-- capPatienceBudgetSeconds on a positive number.
abbrev pub cap_patience : ℕ → ℕ
cap_patience seconds =
    if ltb (max_patience_budget / second) seconds then max_patience_budget else seconds * second

abbrev pub or_hand_to_human : EscalationRule → EscalationRule
or_hand_to_human (EscalationRule.unknown s) =
    if str_eq s "" then EscalationRule.hand_to_human else EscalationRule.unknown s
or_hand_to_human rule = rule

-- A missing key of a map is 0.
abbrev pub or_zero : Option ℤ → ℤ
or_zero none = pos 0
or_zero (some d) = d

abbrev pub wall_seconds : EscalationRule → WallClock → ℤ → Resolved
wall_seconds rule c (negsuc n) = err (non_positive_wall c.name)
wall_seconds rule c (pos n) =
    if n == 0
    then err (non_positive_wall c.name)
    else ok (record {
      budget = pos (cap_patience n);
      budget_source = cultivar;
      escalation_rule = rule;
      cultivar = concat (c.name ∷ "@" ∷ show_ℕ c.version ∷ []);
    })

abbrev pub wall_budget : EscalationRule → Option WallClock → Resolved
wall_budget rule none = err unknown_cultivar
wall_budget rule (some c) = wall_seconds rule c c.max_wall_seconds

module _ (get_cultivar_ref : String → Option WallClock) (budgets : Budgets) where
  -- From the sign of the declared patience on.
  abbrev pub resolve_budget : WorkItemState → EscalationRule → String → ℤ → Resolved
  resolve_budget state rule ref (negsuc n) = err negative_patience
  resolve_budget state rule ref (pos n) =
      if ltb 0 n
      then ok (record {
        budget = pos (cap_patience n);
        budget_source = item;
        escalation_rule = rule;
        cultivar = ref;
      })
      else if not (str_eq ref "") && state_eq state WorkItemState.running
      then wall_budget rule (get_cultivar_ref ref)
      else ok (record {
        budget = or_zero (patience_of state budgets);
        budget_source = policy_profile;
        escalation_rule = rule;
        cultivar = ref;
      })

  -- resolvePatienceRule; `none` where the metadata cannot be decoded.
  unfoldable pub resolve_patience_rule : WorkItemState → Option LaunchMetadata → Resolved
  resolve_patience_rule state none = err bad_metadata
  resolve_patience_rule state (some meta) =
      let rule = or_hand_to_human meta.escalation_rule in
      if not (rule_valid rule)
      then err (invalid_rule rule)
      else resolve_budget state rule (trim_space meta.cultivar) meta.patience_budget_seconds

pub record Candidate : Type 0 where
  pub id : Uuid
  pub state : WorkItemState
  pub state_entered_at : ℕ
  pub human_review_status : HumanReviewStatus
  pub resolved : Resolution

pub record Breach : Type 0 where
  pub candidate : Candidate
  pub budget : ℕ
  pub age : ℕ

abbrev pub overdue : ℕ → Candidate → ℤ → List Breach → List Breach
overdue now c (negsuc n) rest = rest
overdue now c (pos n) rest =
    if n == 0
    then rest
    else if leb now (c.state_entered_at + n)
    then rest
    else record { candidate = c; budget = n; age = now - c.state_entered_at } ∷ rest

-- EvaluateBreaches
unfoldable pub evaluate_breaches : ℕ → List Candidate → List Breach
evaluate_breaches now [] = []
evaluate_breaches now (c ∷ cs) = overdue now c c.resolved.budget (evaluate_breaches now cs)

abbrev pub pre_claim : WorkItemState → Bool
pre_claim WorkItemState.captured = true
pre_claim WorkItemState.triaged = true
pre_claim WorkItemState.planned = true
pre_claim _ = false

abbrev before_at : String → Option (String × String) → String
before_at name none = name
before_at name (some (before, after)) = before

-- isHumanAttentionCultivarRef
unfoldable pub is_human_attention : String → Bool
is_human_attention ref =
    let name = trim_space ref in str_eq (before_at name (cut b'@' name)) "human-attention"

-- shouldRoutePatienceBreachToDispatch
unfoldable pub routes_to_dispatch : Breach → Bool
routes_to_dispatch b =
    let ref = trim_space b.candidate.resolved.cultivar in
    pre_claim b.candidate.state && not (str_eq ref "") && not (is_human_attention ref)
