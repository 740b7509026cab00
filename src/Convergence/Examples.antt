-- ===== src/Convergence/Examples.antt =====
-- The reducers, registry and budget of internal/convergence on concrete inputs.
use mathlib.Core.List.{Perm}
use mathlib.Core.List.Perm
use meristem.Base.{
  ℕ, ◌≤◌, String, Bool, true, false, Option, none, some, List, [], ◌∷◌, ◌≡◌, refl, arith,
  if◌then◌else◌, ltb, all, is_empty,
}
use meristem.Domain.{Disposition}
use meristem.Convergence.{Signal}
use meristem.Convergence.Reducers.{majority_vote, unanimous, all_pass_checklist}
use meristem.Convergence.Reducers.Votes.{votes, majority_vote-disposition}
use meristem.Convergence.Reducers.Checklist.{satisfied, all_pass_checklist-disposition}
use meristem.Convergence.Reducers.Order.{reduce_order}
use meristem.Convergence.Registry.{Registry, human_ack_reducer}
use meristem.Convergence.Budget.{
  Budget, Escalation, Outcome, validate, escalation_valid, hand_to_human,
}
use meristem.Convergence.Budget.Loop.{attempts, IsExit, attempts_bounded}

abbrev signal : String → Option Bool → String → Signal ℕ
signal kind pass raw = record {
  kind = kind;
  source = record { model = "m"; prompt_version = "1"; sample_id = "s" };
  pass = pass;
  score = none;
  raw = raw;
}

abbrev graders : List (Signal ℕ)
graders =
    signal "grade" (some true) ""
    ∷ signal "grade" (some false) ""
    ∷ signal "grade" (some true) ""
    ∷ []

abbrev checks : List (Signal ℕ)
checks =
    signal "checklist.item:tests" (some true) "" ∷ signal "checklist.item:lint" (some false) "" ∷ []

majority_vote-disposition_example : (majority_vote "grade" graders).disposition ≡ (
    if ltb (votes false "grade" graders) (votes true "grade" graders)
    then Disposition.accept
    else if ltb (votes true "grade" graders) (votes false "grade" graders)
    then Disposition.reject
    else Disposition.escalate)
majority_vote-disposition_example = majority_vote-disposition "grade" graders

abbrev required : List String
required = "tests" ∷ "lint" ∷ []

all_pass_checklist-disposition_example : (all_pass_checklist required checks).disposition ≡ (
    if is_empty required
    then Disposition.escalate
    else if all (satisfied checks) required
    then Disposition.accept
    else Disposition.reject)
all_pass_checklist-disposition_example = all_pass_checklist-disposition required checks

abbrev a : Signal ℕ
a = signal "checklist.item:tests" (some true) ""

abbrev b : Signal ℕ
b = signal "grade" (some false) "bad"

swapped : Perm (a ∷ b ∷ []) (b ∷ a ∷ [])
swapped = Perm.swap b a []

reduce_order_example :
    (majority_vote "grade" (a ∷ b ∷ []) ≡ majority_vote "grade" (b ∷ a ∷ []))
    × (unanimous "grade" (a ∷ b ∷ []) ≡ unanimous "grade" (b ∷ a ∷ []))
    × (all_pass_checklist ("tests" ∷ []) (a ∷ b ∷ [])
        ≡ all_pass_checklist ("tests" ∷ []) (b ∷ a ∷ []))
reduce_order_example = reduce_order swapped "grade" ("tests" ∷ [])

abbrev one_reducer : Registry ℕ
one_reducer = ("human_ack", human_ack_reducer) ∷ []

abbrev two_attempts : Budget
two_attempts = record { max_attempts = 2; escalation = hand_to_human }

attempts_bounded_example :
    (o : Outcome × Escalation) × (n : ℕ) × (attempts two_attempts 1
        (Disposition.reject ∷ Disposition.reject ∷ [])
      ≡ some (o, n))
    × (1 ≤ n)
    × (n ≤ 2)
    × IsExit two_attempts o
    × (escalation_valid two_attempts.escalation ≡ true)
unfolding validate
attempts_bounded_example =
    attempts_bounded two_attempts 1 (Disposition.reject ∷ Disposition.reject ∷ []) refl
      (omega arith) (omega arith)
