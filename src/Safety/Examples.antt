-- ===== src/Safety/Examples.antt =====
-- The policy of internal/safety/policy.go on its profiles.
use meristem.Base.{ℕ, ◌≤◌, ◌<◌, none, some, ◌≡◌, refl}
use meristem.Base.Int.{pos}
use meristem.Domain.{WorkItemState}
use meristem.Safety.{
  validate, validate_rates, check_rates, rate_of, check_patience, check_required, check_budgets,
  patience_of, max_patience_budget, default_policy, bring_up_policy, profile_by_name,
}
use meristem.Safety.Bounded.{validate-patience}

gate_passes : validate default_policy ≡ none
unfolding validate default_policy validate_rates check_rates rate_of check_patience check_required
    check_budgets patience_of
gate_passes = refl

validate-patience_example :
    (d : ℕ) × (patience_of WorkItemState.blocked default_policy.patience_budgets ≡ some (pos d))
    × (0 < d)
    × (d ≤ max_patience_budget)
validate-patience_example =
    validate-patience default_policy WorkItemState.blocked gate_passes refl refl

bring_up_resolves : profile_by_name "bring-up" ≡ some bring_up_policy
unfolding profile_by_name
bring_up_resolves = refl
