-- ===== src/Safety/Bounded.antt =====
-- What the startup gate of internal/safety/policy.go guarantees.
use meristem.Base.{
  ℕ, ◌≤◌, ◌<◌, String, Bool, true, false, Option, none, some, List, [], ◌∷◌, str_eq, if◌then◌else◌,
  ◌≡◌, refl, arith, subst,
}
use meristem.Base.Int.{ℤ, pos, negsuc}
use meristem.Domain.{WorkItemState, state_valid, terminal}
use meristem.Safety.{
  Policy, PolicyError, validate, validate_rates, check_rates, rate_of, check_patience,
  check_required, check_budgets, patience_of, positive, exceeds, max_patience_budget,
  default_policy, bring_up_policy, profile_by_name,
}

of_state :
    (f : WorkItemState → Bool) (s : WorkItemState)
    → state_valid s ≡ true
    → terminal s ≡ false
    → f WorkItemState.captured ≡ true
    → f WorkItemState.triaged ≡ true
    → f WorkItemState.planned ≡ true
    → f WorkItemState.awaiting_approval ≡ true
    → f WorkItemState.running ≡ true
    → f WorkItemState.blocked ≡ true
    → f s ≡ true
of_state f WorkItemState.captured v t a b c d e g = a
of_state f WorkItemState.triaged v t a b c d e g = b
of_state f WorkItemState.planned v t a b c d e g = c
of_state f WorkItemState.awaiting_approval v t a b c d e g = d
of_state f WorkItemState.running v t a b c d e g = e
of_state f WorkItemState.blocked v t a b c d e g = g
of_state f s v t a b c d e g = absurd cc

module _ (budgets : List (WorkItemState × ℤ)) where
  -- The state has a budget that is positive.
  abbrev timely : WorkItemState → Bool
  timely s = elim (patience_of s budgets) [ none ↦ false | some d ↦ positive d ]

  required_first :
      (s : WorkItemState) (ss : List WorkItemState) (rest : Option PolicyError)
      → check_required (s ∷ ss) budgets rest ≡ none
      → (timely s ≡ true) × (check_required ss budgets rest ≡ none)
  unfolding check_required
  required_first s ss rest h = ground (arith, h)

  required_last : (rest : Option PolicyError) → check_required [] budgets rest ≡ none → rest ≡ none
  unfolding check_required
  required_last rest h = h

  required_timely :
      (s : WorkItemState)
      → check_patience budgets ≡ none
      → state_valid s ≡ true
      → terminal s ≡ false
      → (timely s ≡ true) × (check_budgets budgets ≡ none)
  unfolding check_patience
  required_timely s h v t =
      let a = required_first _ _ _ h in
      let b = required_first _ _ _ a.1 in
      let c = required_first _ _ _ b.1 in
      let d = required_first _ _ _ c.1 in
      let e = required_first _ _ _ d.1 in
      let f = required_first _ _ _ e.1 in
      (of_state timely s v t a.0 b.0 c.0 d.0 e.0 f.0, required_last _ f.1)

capped :
    (s : WorkItemState) (bs : List (WorkItemState × ℤ)) (d : ℤ)
    → check_budgets bs ≡ none
    → patience_of s bs ≡ some d
    → exceeds d max_patience_budget ≡ false
unfolding check_budgets patience_of
capped s [] d h e = absurd cc
capped s ((s', d') ∷ bs) d h e = ground (arith, capped s bs d)

checked_patience : (p : Policy) → validate p ≡ none → check_patience p.patience_budgets ≡ none
unfolding validate
checked_patience p h = ground arith

finite :
    (s : WorkItemState) (bs : List (WorkItemState × ℤ)) (o : Option ℤ)
    → patience_of s bs ≡ o
    → timely bs s ≡ true
    → check_budgets bs ≡ none
    → (d : ℕ) × (patience_of s bs ≡ some (pos d)) × (0 < d) × (d ≤ max_patience_budget)
finite s bs none e t c = absurd (ground (arith, e, t))
finite s bs (some (negsuc n)) e t c = absurd (ground (arith, e, t))
finite s bs (some (pos n)) e t c =
    (n, e, ground (arith, e, t), ground (arith, capped s bs (pos n) c e))

-- Under a policy that passes the startup gate, every legal state that is not terminal has a patience
-- budget, which is positive and at most 30 days.
pub validate-patience :
    (p : Policy) (s : WorkItemState)
    → validate p ≡ none
    → state_valid s ≡ true
    → terminal s ≡ false
    → (d : ℕ) × (patience_of s p.patience_budgets ≡ some (pos d))
      × (0 < d)
      × (d ≤ max_patience_budget)
validate-patience p s h v t =
    let r = required_timely p.patience_budgets s (checked_patience p h) v t in
    finite s p.patience_budgets _ refl r.0 r.1

default_valid : validate default_policy ≡ none
unfolding validate default_policy validate_rates check_rates rate_of check_patience check_required
    check_budgets patience_of
default_valid = refl

bring_up_valid : validate bring_up_policy ≡ none
unfolding validate bring_up_policy validate_rates check_rates rate_of check_patience check_required
    check_budgets patience_of
bring_up_valid = refl

resolved-validates :
    (a b : Bool) (p : Policy)
    → (if a then some default_policy else if b then some bring_up_policy else none) ≡ some p
    → validate p ≡ none
resolved-validates true b p h = subst (λ x. validate x ≡ none) (cc (h)) default_valid
resolved-validates false true p h = subst (λ x. validate x ≡ none) (cc (h)) bring_up_valid
resolved-validates false false p h = absurd cc

-- Every profile that ProfileByName resolves passes Validate: a switch of the active profile never
-- meets an invalid policy.
pub profile_by_name-validates :
    (name : String) (p : Policy) → profile_by_name name ≡ some p → validate p ≡ none
unfolding profile_by_name
profile_by_name-validates name p h =
    resolved-validates (str_eq name "steady") (str_eq name "bring-up") p h
