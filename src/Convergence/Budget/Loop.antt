-- ===== src/Convergence/Budget/Loop.antt =====
-- The patience budget bounds the number of attempts.
use meristem.Base.{
  ℕ, suc, ◌+◌, ◌≤◌, ◌<◌, true, Option, none, some, List, [], ◌∷◌, ◌≡◌, ◌⊎◌, inl, inr, refl, ◌∙◌,
  ltb, arith, length, if◌then◌else◌,
}
use meristem.Domain.{Disposition}
use meristem.Convergence.Budget.{
  Budget, Escalation, Outcome, escalation_valid, validate, next, retry,
}

-- Attempts from `attempt` on, one for each disposition, until one does not ask for a retry: the
-- outcome and the number of the attempt that gave it, or `none` where every one asked for a retry.
unfoldable pub attempts : Budget → ℕ → List Disposition → Option ((Outcome × Escalation) × ℕ)
attempts b attempt [] = none
attempts b attempt (v ∷ vs) =
    let rest = attempts b (suc attempt) vs in
    elim ((next b v attempt).0) [
      | retry ↦ rest
      | Outcome.accept ↦ some (next b v attempt, attempt)
      | Outcome.escalate ↦ some (next b v attempt, attempt)
    ]

-- Next asks for a retry exactly when the candidate was neither accepted nor escalated and attempts
-- remain; an escalation carries the rule of the budget.
pub next_lem :
    (b : Budget) (v : Disposition) (attempt : ℕ)
    → (next b v attempt).0 ≡ (elim v [
      | Disposition.accept ↦ Outcome.accept
      | Disposition.escalate ↦ Outcome.escalate
      | _ ↦ if ltb attempt b.max_attempts then retry else Outcome.escalate
    ])
unfolding next
next_lem b v attempt = ground arith

-- What ends the loop.
abbrev pub IsExit : Budget → Outcome × Escalation → Type 0
IsExit b o = (o.0 ≡ Outcome.accept) ⊎ ((o.0 ≡ Outcome.escalate) × (o.1 ≡ b.escalation))

pub next_cases :
    (b : Budget) (v : Disposition) (attempt : ℕ)
    → (((next b v attempt).0 ≡ retry) × (attempt < b.max_attempts)) ⊎ IsExit b (next b v attempt)
unfolding next
next_cases b Disposition.accept attempt = inr (inl refl)
next_cases b Disposition.escalate attempt = inr (inr (refl, refl))
next_cases b v attempt = ground arith

attempts_retry :
    (b : Budget) (v : Disposition) (attempt : ℕ) (vs : List Disposition)
    → (next b v attempt).0 ≡ retry
    → attempts b attempt (v ∷ vs) ≡ attempts b (suc attempt) vs
unfolding attempts
attempts_retry b v attempt vs h = ground arith

attempts_exit :
    (b : Budget) (v : Disposition) (attempt : ℕ) (vs : List Disposition)
    → IsExit b (next b v attempt)
    → attempts b attempt (v ∷ vs) ≡ some (next b v attempt, attempt)
unfolding attempts
attempts_exit b v attempt vs (inl h) = ground arith
attempts_exit b v attempt vs (inr h) = ground arith

validate-escalation : (b : Budget) → validate b ≡ none → escalation_valid b.escalation ≡ true
unfolding validate
validate-escalation b h = ground arith

-- Under a budget that Validate passes, a loop that is given a disposition for each attempt of the
-- budget ends: by attempt `max_attempts` at the latest it accepts, or escalates by the budget's
-- rule, which is one of the three.
pub attempts_bounded :
    (b : Budget) (attempt : ℕ) (vs : List Disposition)
    → validate b ≡ none
    → attempt ≤ b.max_attempts
    → b.max_attempts < attempt + length vs
    → (o : Outcome × Escalation) × (n : ℕ) × (attempts b attempt vs ≡ some (o, n))
      × (attempt ≤ n)
      × (n ≤ b.max_attempts)
      × IsExit b o
      × (escalation_valid b.escalation ≡ true)
attempts_bounded b attempt [] ok le lt = absurd (omega arith)
attempts_bounded b attempt (v ∷ vs) ok le lt = elim (next_cases b v attempt) [
  | inr exit ↦ (
    next b v attempt,
    attempt,
    attempts_exit b v attempt vs exit,
    omega arith,
    le,
    exit,
    validate-escalation b ok,
  )
  | inl (again, more) ↦
      let (o, n, e, lo, hi, exit, valid) =
        attempts_bounded b (suc attempt) vs ok (omega arith) (omega arith) in
      (o, n, attempts_retry b v attempt vs again ∙ e, omega arith, hi, exit, valid)
]
