-- ===== src/Worker/Pass.antt =====
-- The breach pass of ScanOnce in internal/worker/worker.go. What the writing calls answer is given:
-- whether the fact was fresh, or `none` for an error.
pub mod Routes
pub mod Counted
use meristem.Base.{
  ℕ, ◌+◌, String, Bool, true, false, ◌&&◌, ◌||◌, not, Option, none, some, List, [], ◌∷◌, ◌≡◌, refl,
  arith, if◌then◌else◌, length, Bool-cases, inl, inr, count_if, all,
}
use meristem.Domain.{HumanReviewStatus, EscalationRule}
use meristem.Worker.{Breach, Candidate, routes_to_dispatch}

pub record Counts : Type 0 where
  pub breaches_emitted : ℕ
  pub breaches_already_recorded : ℕ
  pub escalations_requested : ℕ
  pub escalations_already_requested : ℕ
  pub escalations_skipped_awaiting_human : ℕ
  pub dispatches_requested : ℕ
  pub dispatches_already_requested : ℕ

abbrev pub awaits_human : HumanReviewStatus → Bool
awaits_human HumanReviewStatus.blocked = true
awaits_human _ = false

abbrev hands_to_human : EscalationRule → Bool
hands_to_human EscalationRule.hand_to_human = true
hands_to_human (EscalationRule.unknown _) = false

pub data PassError : Type 0 where
  emit_failed dispatch_failed escalate_failed : Breach → PassError

-- What the body of the loop does with a breach: go on with new counts, or return with them.
pub data Step : Type 0 where
  goes_on : Counts → Step
  returns : Counts → PassError → Step

abbrev count_emitted : Counts → Bool → Counts
count_emitted n true = record n { breaches_emitted = n.breaches_emitted + 1 }
count_emitted n false = record n { breaches_already_recorded = n.breaches_already_recorded + 1 }

abbrev count_dispatch : Breach → Counts → Option Bool → Step
count_dispatch b n none = returns n (dispatch_failed b)
count_dispatch b n (some true) =
    goes_on (record n { dispatches_requested = n.dispatches_requested + 1 })
count_dispatch b n (some false) =
    goes_on (record n { dispatches_already_requested = n.dispatches_already_requested + 1 })

abbrev count_escalation : Breach → Counts → Option Bool → Step
count_escalation b n none = returns n (escalate_failed b)
count_escalation b n (some true) =
    goes_on (record n { escalations_requested = n.escalations_requested + 1 })
count_escalation b n (some false) =
    goes_on (record n { escalations_already_requested = n.escalations_already_requested + 1 })

module _ (emit dispatch escalate : Breach → Option Bool) where
  -- escalateBreach refuses an unknown rule before it asks for the escalation.
  abbrev pub escalate_breach : Breach → Option Bool
  escalate_breach b =
      if hands_to_human b.candidate.resolved.escalation_rule then escalate b else none

  abbrev pub route : Breach → Counts → Step
  route b n =
      if awaits_human b.candidate.human_review_status
      then goes_on (record n {
        escalations_skipped_awaiting_human = n.escalations_skipped_awaiting_human + 1;
      })
      else if routes_to_dispatch b
      then count_dispatch b n (dispatch b)
      else count_escalation b n (escalate_breach b)

  abbrev pub step_emitted : Breach → Counts → Option Bool → Step
  step_emitted b n none = returns n (emit_failed b)
  step_emitted b n (some fresh) = route b (count_emitted n fresh)

  unfoldable pub step : Breach → Counts → Step
  step b n = step_emitted b n (emit b)

  abbrev pub continue_with : Step → (Counts → Counts × Option PassError) → Counts × Option PassError
  continue_with (goes_on n) rest = rest n
  continue_with (returns n e) rest = (n, some e)

  -- The loop over EvaluateBreaches. It returns at the first error.
  unfoldable pub breach_pass : List Breach → Counts → Counts × Option PassError
  unfolding step
  breach_pass [] n = (n, none)
  breach_pass (b ∷ bs) n = continue_with (step b n) (breach_pass bs)
