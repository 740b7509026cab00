-- ===== src/Convergence/Proposals.antt =====
-- The ChecksProposal and HumanAck reducers and KnownReducer of internal/convergence/reducers.go.
pub mod Laws
use meristem.Base.{
  ℕ, String, Bool, true, false, Option, none, some, List, [], ◌∷◌, ◌++◌, ◌==◌, str_eq,
  if◌then◌else◌, join, sort_strings, trim_space,
}
use meristem.Domain.{Disposition}
use meristem.Convergence.{Signal, Verdict}

-- strings.TrimSpace of the evidence, or a default where that is blank.
reason_or : String → String → String
reason_or default raw = let reason = trim_space raw in if str_eq reason "" then default else reason

abbrev pub checks_proposal_valid_kind : String
checks_proposal_valid_kind = "checks_proposal.valid"

note_proposal : String → Option Bool → Bool × List String → Bool × List String
unfolding reason_or
note_proposal raw none n = n
note_proposal raw (some true) n = (true, n.1)
note_proposal raw (some false) n = (n.0, n.1 ++ reason_or "proposal validation failed" raw ∷ [])

proposal_of : Bool → List String → Verdict
proposal_of saw_pass (f ∷ fs) = record {
  disposition = Disposition.reject;
  reason = join "; " (f ∷ fs);
}
proposal_of true [] = record {
  disposition = Disposition.accept;
  reason = "checks proposal validated";
}
proposal_of false [] = record {
  disposition = Disposition.escalate;
  reason = "no checks_proposal.valid signal";
}

module _ {F : Type 0} where
  -- The loop of ChecksProposal.Reduce over `sawPass` and `failures`.
  unfoldable pub gather : List (Signal F) → Bool × List String → Bool × List String
  unfolding note_proposal
  gather [] n = n
  gather (s ∷ ss) n =
      gather ss
        (if str_eq s.kind checks_proposal_valid_kind then note_proposal s.raw s.pass n else n)

  unfoldable pub checks_proposal : List (Signal F) → Verdict
  unfolding proposal_of
  checks_proposal signals =
      let (saw_pass, failures) = gather signals (false, []) in
      proposal_of saw_pass (sort_strings failures)

abbrev pub human_ack_decision_kind : String
human_ack_decision_kind = "human_ack.decision"

ack_of : Option Bool → String → Verdict → Verdict
unfolding reason_or
ack_of none raw later = later
ack_of (some true) raw later = record {
  disposition = Disposition.accept;
  reason = "human acknowledged";
}
ack_of (some false) raw later = record {
  disposition = Disposition.reject;
  reason = reason_or "human denied acknowledgement" raw;
}

module _ {F : Type 0} where
  -- The test that skips a signal, negated.
  abbrev pub decision? : Signal F → Option Bool
  decision? s = if str_eq s.kind human_ack_decision_kind then s.pass else none

  unfoldable pub human_ack : List (Signal F) → Verdict
  unfolding ack_of
  human_ack [] = record {
    disposition = Disposition.escalate;
    reason = "no human_ack.decision signal";
  }
  human_ack (s ∷ ss) = ack_of (decision? s) s.raw (human_ack ss)

unfoldable pub known_reducer : String → ℕ → Bool
known_reducer identity version =
    if str_eq identity "all_pass_checklist"
    then version == 1
    else if str_eq identity "checks_proposal"
    then version == 1
    else if str_eq identity "human_ack"
    then version == 1
    else false
