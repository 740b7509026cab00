-- ===== src/Convergence/Budget.antt =====
-- internal/convergence/budget.go: bounded patience.
pub mod Loop
use meristem.Base.{ℕ, String, Bool, true, false, Option, none, some, leb, ltb, not, if◌then◌else◌}
use meristem.Domain.{Disposition}

pub data Escalation : Type 0 where
  fail request_approval hand_to_human : Escalation
  -- Any other text, "" among them.
  unknown : String → Escalation

abbrev pub escalation_valid : Escalation → Bool
escalation_valid (Escalation.unknown _) = false
escalation_valid _ = true

pub record Budget : Type 0 where
  pub max_attempts : ℕ
  pub escalation : Escalation

pub data BudgetError : Type 0 where
  bad_max_attempts : ℕ → BudgetError
  bad_escalation : Escalation → BudgetError

-- The error that Validate returns, if any.
unfoldable pub validate : Budget → Option BudgetError
validate b =
    if ltb b.max_attempts 1
    then some (bad_max_attempts b.max_attempts)
    else if not (escalation_valid b.escalation)
    then some (bad_escalation b.escalation)
    else none

abbrev pub exhausted : Budget → ℕ → Bool
exhausted b attempt = leb b.max_attempts attempt

pub data Outcome : Type 0 where
  accept retry escalate : Outcome

next_of : Disposition → Budget → ℕ → Outcome × Escalation
next_of Disposition.accept b attempt = (Outcome.accept, Escalation.unknown "")
next_of Disposition.escalate b attempt = (Outcome.escalate, b.escalation)
next_of _ b attempt =
    if exhausted b attempt then (Outcome.escalate, b.escalation) else (retry, Escalation.unknown "")

unfoldable pub next : Budget → Disposition → ℕ → Outcome × Escalation
unfolding next_of
next b v attempt = next_of v b attempt
