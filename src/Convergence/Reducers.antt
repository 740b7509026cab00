-- ===== src/Convergence/Reducers.antt =====
-- internal/convergence/reducers.go: the canonical reducers.
pub mod Votes
pub mod Checklist
pub mod Order
use meristem.Base.{
  ℕ, ◌+◌, ◌*◌, String, Bool, true, false, ◌&&◌, ◌||◌, not, Option, none, some, List, [], ◌∷◌, ◌++◌,
  ltb, leb, ◌==◌, str_eq, if◌then◌else◌, length, select, contains, concat, join, show_ℕ,
  sort_strings, strip_prefix?, trim_space,
}
use meristem.Domain.{Disposition}
use meristem.Convergence.{
  Float64, Signal, Verdict, ConfigValue, Config, Result, Reducer, text, number, texts, ok,
}

abbrev pub verdict : Disposition → List String → Verdict
verdict d reason = record { disposition = d; reason = concat reason }

abbrev vote : Option Bool → ℕ × ℕ → ℕ × ℕ
vote none n = n
vote (some true) n = (n.0 + 1, n.1)
vote (some false) n = (n.0, n.1 + 1)

majority_of : ℕ → ℕ → Verdict
majority_of pass fail =
    let total = pass + fail in
    if total == 0
    then verdict Disposition.escalate ("no qualifying boolean signals to vote over" ∷ [])
    else if ltb total (pass * 2)
    then verdict Disposition.accept
        (show_ℕ pass ∷ "/" ∷ show_ℕ total ∷ " graders passed (majority)" ∷ [])
    else if ltb total (fail * 2)
    then verdict Disposition.reject
        (show_ℕ fail ∷ "/" ∷ show_ℕ total ∷ " graders failed (majority)" ∷ [])
    else verdict Disposition.escalate
        ("tie: " ∷ show_ℕ pass ∷ " pass, " ∷ show_ℕ fail ∷ " fail" ∷ [])

abbrev see : Option Bool → ℕ × ℕ → ℕ × ℕ
see none n = n
see (some true) n = (n.0 + 1, n.1)
see (some false) n = (n.0 + 1, n.1 + 1)

unanimous_of : ℕ → ℕ → Verdict
unanimous_of seen failed =
    if seen == 0
    then verdict Disposition.escalate
        ("no qualifying boolean signals; cannot require unanimity" ∷ [])
    else if ltb 0 failed
    then verdict Disposition.reject
        (show_ℕ failed ∷ "/" ∷ show_ℕ seen ∷ " graders failed; unanimity required" ∷ [])
    else verdict Disposition.accept ("all " ∷ show_ℕ seen ∷ " graders passed" ∷ [])

module _ {F : Type 0} where
  -- The test `kind != "" && s.Kind != kind` that skips a signal, negated.
  abbrev pub counts_for : String → Signal F → Bool
  counts_for kind s = str_eq kind "" || str_eq s.kind kind

  abbrev pub kind_config : String → Config F
  kind_config kind = if str_eq kind "" then [] else ("signal_kind", text kind) ∷ []

  -- The loop of MajorityVote.Reduce over `pass` and `fail`.
  unfoldable pub tally : String → List (Signal F) → ℕ × ℕ → ℕ × ℕ
  tally kind [] n = n
  tally kind (s ∷ ss) n = tally kind ss (if counts_for kind s then vote s.pass n else n)

  unfoldable pub majority_vote : String → List (Signal F) → Verdict
  unfolding majority_of
  majority_vote kind signals = let (pass, fail) = tally kind signals (0, 0) in majority_of pass fail

  -- The loop of Unanimous.Reduce over `seen` and `failed`.
  unfoldable pub survey : String → List (Signal F) → ℕ × ℕ → ℕ × ℕ
  survey kind [] n = n
  survey kind (s ∷ ss) n = survey kind ss (if counts_for kind s then see s.pass n else n)

  unfoldable pub unanimous : String → List (Signal F) → Verdict
  unfolding unanimous_of
  unanimous kind signals =
      let (seen, failed) = survey kind signals (0, 0) in unanimous_of seen failed

module _ (fl : Float64) where
  open fl use {F, zero, add, over, at_least, show}

  abbrev add_score : Option F → F × ℕ → F × ℕ
  add_score none n = n
  add_score (some x) n = (add n.0 x, n.1 + 1)

  -- The loop of Threshold.Reduce over `sum` and `n`.
  unfoldable pub total_score : String → List (Signal F) → F × ℕ → F × ℕ
  total_score kind [] n = n
  total_score kind (s ∷ ss) n =
      total_score kind ss (if counts_for kind s then add_score s.score n else n)

  threshold_of : F → F → ℕ → Verdict
  threshold_of accept sum n =
      let mean = over sum n in
      if n == 0
      then verdict Disposition.escalate ("no qualifying scalar signals to threshold" ∷ [])
      else if at_least mean accept
      then verdict Disposition.accept (
          "mean score " ∷ show mean ∷ " >= threshold " ∷ show accept ∷ " (n=" ∷ show_ℕ n ∷ ")" ∷ [])
      else verdict Disposition.reject
          ("mean score " ∷ show mean ∷ " < threshold " ∷ show accept ∷ " (n=" ∷ show_ℕ n ∷ ")" ∷ [])

  unfoldable pub threshold : String → F → List (Signal F) → Verdict
  unfolding threshold_of
  threshold kind accept signals =
      let (sum, n) = total_score kind signals (zero, 0) in threshold_of accept sum n

abbrev pub checklist_item_prefix : String
checklist_item_prefix = "checklist.item:"

abbrev without_name : String → List String → List String
without_name name = select (λ x. not (str_eq x name))

-- The maps `passed` and `failed` of AllPassChecklist.Reduce, by the names that they hold.
abbrev record_check :
    Option String → Option Bool → List String × List String → List String × List String
record_check none pass sets = sets
record_check (some name) none sets = sets
record_check (some name) (some true) sets =
    if contains sets.1 name then sets else (name ∷ sets.0, sets.1)
record_check (some name) (some false) sets = (without_name name sets.0, name ∷ sets.1)

module _ {F : Type 0} where
  -- The first loop: `passed` and `failed` after the signals.
  unfoldable pub collapse : List (Signal F) → List String × List String → List String × List String
  collapse [] sets = sets
  collapse (s ∷ ss) sets =
      collapse ss (record_check (strip_prefix? checklist_item_prefix s.kind) s.pass sets)

-- The second loop: the required names that are missing and those that fail, in order.
unfoldable pub missing_names : List String → List String × List String → List String
missing_names required sets =
    select (λ name. not (contains sets.1 name) && not (contains sets.0 name)) required

unfoldable pub failing_names : List String → List String × List String → List String
failing_names required sets = select (λ name. contains sets.1 name) required

labelled : String → List String → List String
labelled label [] = []
labelled label (n ∷ ns) = concat (label ∷ join ", " (n ∷ ns) ∷ []) ∷ []

checklist_of : List String → List String → ℕ → Verdict
unfolding labelled
checklist_of [] [] n =
    verdict Disposition.accept ("all " ∷ show_ℕ n ∷ " required checks passed" ∷ [])
checklist_of missing failing n = record {
  disposition = Disposition.reject;
  reason = join "; " (labelled "failing: " failing ++ labelled "missing: " missing);
}

judge : List String → List String × List String → Verdict
judge required sets =
    checklist_of (sort_strings (missing_names required sets))
      (sort_strings (failing_names required sets)) (length required)

module _ {F : Type 0} where
  unfoldable pub all_pass_checklist : List String → List (Signal F) → Verdict
  unfolding judge checklist_of missing_names failing_names
  all_pass_checklist [] signals =
      verdict Disposition.escalate ("no required checks declared; cannot claim convergence" ∷ [])
  all_pass_checklist (r ∷ rs) signals = judge (r ∷ rs) (collapse signals ([], []))
