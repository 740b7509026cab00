-- ===== src/Worker/Examples.antt =====
-- internal/worker on concrete policies, breaches and signals.
use meristem.Base.{
  ℕ, ◌+◌, ◌*◌, String, Bool, true, false, Option, none, some, List, [], ◌∷◌, ◌≡◌, ◌↔◌, refl,
  trim_space, ◌==◌, if◌then◌else◌, any, sort_strings, strip_prefix?,
}
use meristem.Base.Int.{pos}
use meristem.Domain.{Disposition, WorkItemState, EscalationRule, HumanReviewStatus}
use meristem.Safety.{
  validate, validate_rates, check_rates, rate_of, check_patience, check_required, check_budgets,
  patience_of, default_policy, second,
}
use meristem.Convergence.{Signal, Config, Reducer}
use meristem.Convergence.Registry.{all_pass_checklist_reducer}
use meristem.Convergence.Run.{run}
use meristem.Convergence.Budget.{next}
use meristem.Convergence.Reducers.{all_pass_checklist, collapse}
use meristem.Worker.{
  LaunchMetadata, WallClock, Candidate, item, Breach, resolve_patience_rule, evaluate_breaches,
  routes_to_dispatch, unknown_cultivar,
}
use meristem.Worker.Scan.{WaitingRow, ScanResult, scanned, failed, scan_breaches}
use meristem.Worker.Scan.Overdue.{Scans, overdue_found}
use meristem.Worker.Pass.Routes.{IsDispatchable}
use meristem.Worker.Pass.{Counts, breach_pass}
use meristem.Worker.Pass.Counted.{Passed, breach_pass_counted}
use meristem.Worker.Drive.{
  VerdictRecord, pass, decide_convergence_step, action_of, Emission, ActionAnswer, Visit, fresh,
  carried_out, ignored, returned, drive,
}
use meristem.Worker.Drive.Bounded.{Good, verdicts, drive_bounded}

gate_passes : validate default_policy ≡ none
unfolding validate default_policy validate_rates check_rates rate_of check_patience check_required
    check_budgets patience_of
gate_passes = refl

-- An item that declares a patience of one minute and no rule.
abbrev metadata : LaunchMetadata
metadata = record {
  cultivar = "";
  patience_budget_seconds = pos 60;
  escalation_rule = EscalationRule.unknown "";
}

abbrev candidate : Candidate
candidate = record {
  id = 7;
  state = WorkItemState.running;
  state_entered_at = 1_000;
  human_review_status = HumanReviewStatus.approved;
  resolved = record {
    budget = pos (60 * second);
    budget_source = item;
    escalation_rule = EscalationRule.hand_to_human;
    cultivar = "";
  };
}

abbrev get_cultivar_ref : String → Option WallClock
get_cultivar_ref ref = none

abbrev row : WaitingRow
row = record {
  id = 7;
  state = WorkItemState.running;
  state_entered_at = 1_000;
  human_review_status = HumanReviewStatus.approved;
  metadata = some metadata;
}

-- An item that names a cultivar which the registry does not have.
abbrev stuck_row : WaitingRow
stuck_row = record row {
  id = 8;
  metadata = some (record metadata { cultivar = "gone"; patience_budget_seconds = pos 0 });
}

abbrev late : ℕ
late = 2_000 + 60 * second

abbrev found : ScanResult (List Breach)
found = scan_breaches get_cultivar_ref default_policy.patience_budgets late (row ∷ [])

found_one :
    found
    ≡ scanned
        (record { candidate = candidate; budget = 60 * second; age = 1_000 + 60 * second } ∷ [])
unfolding scan_breaches resolve_patience_rule trim_space default_policy evaluate_breaches
found_one = refl

-- The rule that does not resolve hides the breach of the other item.
blocked :
    scan_breaches get_cultivar_ref default_policy.patience_budgets late (row ∷ stuck_row ∷ [])
    ≡ failed 8 unknown_cultivar
unfolding scan_breaches resolve_patience_rule trim_space default_policy evaluate_breaches
blocked = refl

overdue_found_example :
    Scans get_cultivar_ref default_policy late
      (row ∷ [])
      (scan_breaches get_cultivar_ref default_policy.patience_budgets late (row ∷ []))
overdue_found_example = overdue_found get_cultivar_ref default_policy late (row ∷ []) gate_passes

abbrev breach : ℕ → Breach
breach age = record { candidate = candidate; budget = 60 * second; age = age }

-- The fact of a breach of age 2 cannot be written.
abbrev emit : Breach → Option Bool
emit b = if b.age == 2 then none else some true

abbrev answered : Breach → Option Bool
answered b = some true

abbrev no_counts : Counts
no_counts = record {
  breaches_emitted = 0;
  breaches_already_recorded = 0;
  escalations_requested = 0;
  escalations_already_requested = 0;
  escalations_skipped_awaiting_human = 0;
  dispatches_requested = 0;
  dispatches_already_requested = 0;
}

abbrev breaches : List Breach
breaches = breach 1 ∷ breach 2 ∷ breach 3 ∷ []

breach_pass_counted_example :
    Passed emit answered answered breaches no_counts
      (breach_pass emit answered answered breaches no_counts)
    × ((b : Breach) → (routes_to_dispatch b ≡ true) ↔ IsDispatchable b)
breach_pass_counted_example = breach_pass_counted emit answered answered breaches no_counts

abbrev check : Bool → Signal ℕ
check pass = record {
  kind = "checklist.item:tests";
  source = record { model = "m"; prompt_version = "1"; sample_id = "s" };
  pass = some pass;
  score = none;
  raw = "";
}

abbrev visit : Bool → Emission → ActionAnswer → Visit ℕ
visit pass emission answer = record {
  signals = check pass ∷ [];
  emission = emission;
  answer = answer;
}

abbrev passes : Signal ℕ → Bool
passes s = elim s.pass [ some p ↦ p | none ↦ false ]

-- The digest tells whether a check passed.
abbrev digest_fails : List (Signal ℕ) → Config ℕ → Option String
digest_fails signals config = some (if any passes signals then "pass" else "fail")

abbrev visits : List (Visit ℕ)
visits = visit false fresh carried_out ∷ visit true fresh ignored ∷ visit true fresh returned ∷ []

abbrev tests_reducer : Reducer ℕ
tests_reducer = all_pass_checklist_reducer ("tests" ∷ [])

drive_bounded_example : Good none (drive digest_fails tests_reducer visits none)
drive_bounded_example = drive_bounded digest_fails tests_reducer visits none

-- The third verdict is on record and the action after it failed: other inputs give a fourth.
abbrev third : VerdictRecord
third = record {
  attempt = 3;
  inputs_digest = "pass";
  verdict = record { disposition = Disposition.reject; reason = "" };
}

abbrev attempts_of : List VerdictRecord → List ℕ
attempts_of [] = []
attempts_of (v ∷ vs) = v.attempt ∷ attempts_of vs

past_budget :
    attempts_of
      (verdicts (drive digest_fails tests_reducer (visit false fresh returned ∷ []) (some third)))
    ≡ 4 ∷ []
unfolding drive pass decide_convergence_step run next action_of all_pass_checklist trim_space
    sort_strings collapse strip_prefix?
past_budget = refl
