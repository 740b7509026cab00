-- ===== src/Worker/Patience.antt =====
-- internal/worker/patience_rules.go: the budget that a rule resolves to under a policy.
use meristem.Base.{
  ℕ, ◌<◌, ◌≤◌, String, true, false, ◌&&◌, not, Option, none, some, ◌≡◌, inl, inr, ◌∙◌, ap, arith,
  ltb, ◌==◌, Bool-cases, trim_space, str_eq,
}
use meristem.Base.Int.{ℤ, pos, negsuc}
use meristem.Domain.{WorkItemState, EscalationRule, state_valid, state_eq, terminal, rule_valid}
use meristem.Safety.{Policy, validate, patience_of, max_patience_budget}
use meristem.Safety.Bounded.{validate-patience}
use meristem.Worker.{
  LaunchMetadata, WallClock, Resolution, ok, err, cap_patience, resolve_patience_rule, wall_budget,
  resolve_budget, or_zero, or_hand_to_human, wall_seconds, Resolved, PatienceError,
}

cap_patience_bounds :
    (n : ℕ) → 0 < n → (0 < cap_patience n) × (cap_patience n ≤ max_patience_budget)
cap_patience_bounds n h = ground arith

same_budget : {k r : Resolution} → ◌≡◌ {A = Resolved} (ok k) (ok r) → r.budget ≡ k.budget
same_budget h = ground arith

-- The resolved budget is positive and at most 30 days.
abbrev pub Bounded : ℤ → Type 0
Bounded b = (d : ℕ) × (b ≡ pos d) × (0 < d) × (d ≤ max_patience_budget)

module _ (get_cultivar_ref : String → Option WallClock) (p : Policy) (state : WorkItemState)
    (gate : validate p ≡ none) (legal : state_valid state ≡ true)
    (open_state : terminal state ≡ false) where
  from_policy : Bounded (or_zero (patience_of state p.patience_budgets))
  from_policy =
      let (d, e, l, u) = validate-patience p state gate legal open_state in (d, ap or_zero e, l, u)

  wall_seconds-Bounded :
      (rule : EscalationRule) (c : WallClock) (z : ℤ) {r : Resolution}
      → wall_seconds rule c z ≡ ok r
      → Bounded r.budget
  wall_seconds-Bounded rule c (negsuc n) h = absurd cc
  wall_seconds-Bounded rule c (pos n) h = elim (Bool-cases (n == 0)) [
    | inl e ↦ absurd (ground (arith, h, e))
    | inr e ↦
        let (l, u) = cap_patience_bounds n (ground (arith, e)) in
        (cap_patience n, same_budget (rw e at h), l, u)
  ]

  wall_Bounded :
      (rule : EscalationRule) (o : Option WallClock) {r : Resolution}
      → wall_budget rule o ≡ ok r
      → Bounded r.budget
  wall_Bounded rule none h = absurd cc
  wall_Bounded rule (some c) h = wall_seconds-Bounded rule c c.max_wall_seconds h

  budget_Bounded :
      (rule : EscalationRule) (ref : String) (z : ℤ) {r : Resolution}
      → resolve_budget get_cultivar_ref p.patience_budgets state rule ref z ≡ ok r
      → Bounded r.budget
  budget_Bounded rule ref (negsuc n) h = absurd cc
  budget_Bounded rule ref (pos n) h = elim (Bool-cases (ltb 0 n)) [
    | inl e ↦
        let (l, u) = cap_patience_bounds n (ground (arith, e)) in
        (cap_patience n, same_budget (rw e at h), l, u)
    | inr e ↦ elim (Bool-cases (not (str_eq ref "") && state_eq state WorkItemState.running)) [
      | inl k ↦ wall_Bounded rule (get_cultivar_ref ref) (rw (e, k) at h)
      | inr k ↦ let (d, q, l, u) = from_policy in (d, same_budget (rw (e, k) at h) ∙ q, l, u)
    ]
  ]

  pub resolve-Bounded :
      (meta : Option LaunchMetadata) {r : Resolution}
      → resolve_patience_rule get_cultivar_ref p.patience_budgets state meta ≡ ok r
      → Bounded r.budget
  unfolding resolve_patience_rule
  resolve-Bounded none h = absurd cc
  resolve-Bounded (some meta) h =
      elim (Bool-cases (rule_valid (or_hand_to_human meta.escalation_rule))) [
        | inl v ↦
            budget_Bounded (or_hand_to_human meta.escalation_rule) (trim_space meta.cultivar)
              meta.patience_budget_seconds (rw v at h)
        | inr v ↦ absurd (refused (rw v at h))
      ]
    where
      refused : {e : PatienceError} {r : Resolution} → ◌≡◌ {A = Resolved} (err e) (ok r) → ⊥
      refused k = cc
