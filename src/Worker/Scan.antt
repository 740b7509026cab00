-- ===== src/Worker/Scan.antt =====
-- internal/worker/patience_rules.go: breachCandidates, and the scan of ScanOnce that evaluates what it
-- finds. The rows are those of work_items joined with the payload of the item's created event.
pub mod Rows
pub mod Overdue
use meristem.Base.{ℕ, Bool, true, false, Option, List, [], ◌∷◌, leb, if◌then◌else◌, String}
use meristem.Domain.{Uuid, WorkItemState, HumanReviewStatus}
use meristem.Worker.{
  Budgets, LaunchMetadata, WallClock, Resolution, PatienceError, Resolved, ok, err, Candidate,
  Breach, resolve_patience_rule, evaluate_breaches,
}

-- `none` for metadata that cannot be decoded.
pub record WaitingRow : Type 0 where
  pub id : Uuid
  pub state : WorkItemState
  pub state_entered_at : ℕ
  pub human_review_status : HumanReviewStatus
  pub metadata : Option LaunchMetadata

-- nonTerminalStateStrings
abbrev pub non_terminal : WorkItemState → Bool
non_terminal WorkItemState.captured = true
non_terminal WorkItemState.triaged = true
non_terminal WorkItemState.planned = true
non_terminal WorkItemState.awaiting_approval = true
non_terminal WorkItemState.running = true
non_terminal WorkItemState.blocked = true
non_terminal _ = false

-- ORDER BY state_entered_at ASC. The query leaves the order of equal times open.
unfoldable pub insert_row : WaitingRow → List WaitingRow → List WaitingRow
insert_row r [] = r ∷ []
insert_row r (x ∷ xs) =
    if leb r.state_entered_at x.state_entered_at then r ∷ x ∷ xs else x ∷ insert_row r xs

-- The rows that the query selects, in its order.
unfoldable pub select_rows : List WaitingRow → List WaitingRow
unfolding insert_row
select_rows [] = []
select_rows (r ∷ rs) =
    let rest = select_rows rs in if non_terminal r.state then insert_row r rest else rest

-- What a scan returns: what it found, or the error of an item.
pub data ScanResult (A : Type 0) : Type 0 where
  scanned : A → ScanResult A
  failed : Uuid → PatienceError → ScanResult A

abbrev pub candidate_of : WaitingRow → Resolution → Candidate
candidate_of w r = record {
  id = w.id;
  state = w.state;
  state_entered_at = w.state_entered_at;
  human_review_status = w.human_review_status;
  resolved = r;
}

-- The body of the loop, with what the rows after this one give.
abbrev pub add_candidate :
    WaitingRow → Resolved → ScanResult (List Candidate) → ScanResult (List Candidate)
add_candidate w (err e) rest = failed w.id e
add_candidate w (ok r) (scanned cs) = scanned (candidate_of w r ∷ cs)
add_candidate w (ok r) (failed id e) = failed id e

module _ (get_cultivar_ref : String → Option WallClock) (budgets : Budgets) where
  unfoldable pub collect : List WaitingRow → ScanResult (List Candidate)
  collect [] = scanned []
  collect (w ∷ ws) =
      add_candidate w (resolve_patience_rule get_cultivar_ref budgets w.state w.metadata)
        (collect ws)

  unfoldable pub breach_candidates : List WaitingRow → ScanResult (List Candidate)
  unfolding select_rows collect
  breach_candidates rows = collect (select_rows rows)

  abbrev pub evaluate : ℕ → ScanResult (List Candidate) → ScanResult (List Breach)
  evaluate now (scanned cs) = scanned (evaluate_breaches now cs)
  evaluate now (failed id e) = failed id e

  -- ScanOnce from breachCandidates to EvaluateBreaches.
  unfoldable pub scan_breaches : ℕ → List WaitingRow → ScanResult (List Breach)
  unfolding breach_candidates
  scan_breaches now rows = evaluate now (breach_candidates rows)
