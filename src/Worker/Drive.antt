-- ===== src/Worker/Drive.antt =====
-- internal/worker/convergence_driver.go: one item over the passes of the worker. A pass is given
-- the signals that it gathers and what its calls answer, errors included; the digest of the inputs is
-- that of Convergence/Run.
pub mod Bounded
use meristem.Base.{
  ℕ, ◌+◌, ◌≤◌, ◌<◌, suc, String, Bool, true, false, ◌&&◌, not, Option, none, some, List, [], ◌∷◌,
  ◌≡◌, ◌⊎◌, inl, inr, refl, sym, ◌∙◌, ap, arith, str_eq, if◌then◌else◌, length, Bool-cases, ltb,
}
use meristem.Domain.{Disposition, WorkItemState}
use meristem.Convergence.{Signal, Verdict, Config, Reducer, Result, ok, err, Error}
use meristem.Convergence.Run.{Reduction, run}
use meristem.Convergence.Budget.{Budget, Escalation, Outcome, next, retry}
use meristem.Convergence.Budget.Loop.{next_cases, IsExit}

-- defaultConvergenceBudget
abbrev pub default_budget : Budget
default_budget = record { max_attempts = 3; escalation = Escalation.hand_to_human }

pub record VerdictRecord : Type 0 where
  pub attempt : ℕ
  pub inputs_digest : String
  pub verdict : Verdict

pub record ConvergenceDecision : Type 0 where
  pub append_current : Bool
  pub skip_stale : Bool
  pub outcome : Outcome
  pub attempt : ℕ
  pub escalation : Escalation
  pub verdict : Verdict

abbrev pub is_retry : Outcome → Bool
is_retry retry = true
is_retry _ = false

abbrev pub decide_same : VerdictRecord → Budget → ConvergenceDecision
decide_same last budget =
    let o = next budget last.verdict.disposition last.attempt in
    record {
      append_current = false;
      skip_stale = is_retry o.0;
      outcome = o.0;
      attempt = last.attempt;
      escalation = if is_retry o.0 then Escalation.unknown "" else o.1;
      verdict = last.verdict;
    }

module _ {F : Type 0} where
  abbrev pub record_of : Reduction F → VerdictRecord
  record_of r = record { attempt = r.attempt; inputs_digest = r.inputs_digest; verdict = r.verdict }

  abbrev pub decide_fresh : Reduction F → Budget → ConvergenceDecision
  decide_fresh current budget =
      let o = next budget current.verdict.disposition current.attempt in
      record {
        append_current = true;
        skip_stale = false;
        outcome = o.0;
        attempt = current.attempt;
        escalation = o.1;
        verdict = current.verdict;
      }

  -- decideConvergenceStep
  unfoldable pub decide_convergence_step :
      Option VerdictRecord → Reduction F → Budget → ConvergenceDecision
  decide_convergence_step none current budget = decide_fresh current budget
  decide_convergence_step (some last) current budget =
      if str_eq last.inputs_digest current.inputs_digest
      then decide_same last budget
      else decide_fresh current budget

abbrev pub attempt_of : Option VerdictRecord → ℕ
attempt_of none = 0
attempt_of (some last) = last.attempt

-- What the worker does to the item: nothing, a transition, or escalateConvergence's blocking of it.
pub data Action : Type 0 where
  keep_running mark_done mark_failed block unsupported : Action

abbrev pub escalate_by : Escalation → Action
escalate_by Escalation.fail = mark_failed
escalate_by Escalation.request_approval = block
escalate_by Escalation.hand_to_human = block
escalate_by (Escalation.unknown _) = unsupported

unfoldable pub action_of : ConvergenceDecision → Action
action_of d = elim d.outcome [
  | Outcome.accept ↦ mark_done
  | retry ↦ keep_running
  | Outcome.escalate ↦ escalate_by d.escalation
]

-- What emitConvergenceVerdict answers: the verdict is recorded, was on record, or there is an error
-- and its transaction is rolled back.
pub data Emission : Type 0 where
  fresh known rolled_back : Emission

-- What Transition or escalateConvergence answers: it is done, or there is an error, which
-- shouldIgnoreConvergenceTransitionError ignores or the pass returns.
pub data ActionAnswer : Type 0 where
  carried_out ignored returned : ActionAnswer

-- What a pass that comes to the item is given: the signals that it gathers, and the answers of the
-- calls that it makes.
pub record Visit (F : Type 0) : Type 0 where
  pub signals : List (Signal F)
  pub emission : Emission
  pub answer : ActionAnswer

-- What a pass did to the item: it left it running, or it asked for an action, each with the verdict
-- that it recorded; or it returned an error before that.
pub data Report : Type 0 where
  waited : Option VerdictRecord → Report
  asked : Option VerdictRecord → Action → ActionAnswer → Report
  not_reduced : Error → Report
  not_emitted : Report

abbrev pub verdict_of : Report → Option VerdictRecord
verdict_of (waited v) = v
verdict_of (asked v a w) = v
verdict_of (not_reduced e) = none
verdict_of not_emitted = none

-- The switch on the outcome, once the verdict is on record or was to be left alone.
abbrev pub act : ConvergenceDecision → Option VerdictRecord → ActionAnswer → Report
act d v answer = if is_retry d.outcome then waited v else asked v (action_of d) answer

abbrev pub emitted : ConvergenceDecision → VerdictRecord → Emission → ActionAnswer → Report
emitted d v fresh answer = act d (some v) answer
emitted d v known answer = act d none answer
emitted d v rolled_back answer = not_emitted

abbrev pub or_last : Option VerdictRecord → Option VerdictRecord → Option VerdictRecord
or_last none last = last
or_last (some v) last = some v

module _ {F : Type 0} where
  -- From the decision to the end of the loop's body.
  abbrev pub follow : ConvergenceDecision → Reduction F → Emission → ActionAnswer → Report
  follow d r emission answer =
      if d.skip_stale
      then waited none
      else if d.append_current
      then emitted d (record_of r) emission answer
      else act d none answer

  abbrev pub conclude :
      Result (Reduction F) → Option VerdictRecord → Emission → ActionAnswer → Report
  conclude (err e) last emission answer = not_reduced e
  conclude (ok r) last emission answer =
      follow (decide_convergence_step last r default_budget) r emission answer

  module _ (digest : List (Signal F) → Config F → Option String) (reducer : Reducer F) where
    -- The body of the loop of scanConvergence for the item, with the latest verdict on record.
    unfoldable pub pass : Option VerdictRecord → Visit F → Report
    pass last v =
        conclude (run digest (some reducer) v.signals (suc (attempt_of last))) last v.emission
          v.answer

    -- The passes that come to the item: it is running at each of them, whatever the one before it
    -- asked for, since the action failed or the item came back.
    unfoldable pub drive : List (Visit F) → Option VerdictRecord → List Report
    drive [] last = []
    drive (v ∷ vs) last = pass last v ∷ drive vs (or_last (verdict_of (pass last v)) last)
