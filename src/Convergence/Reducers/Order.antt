-- ===== src/Convergence/Reducers/Order.antt =====
-- The verdicts of MajorityVote, Unanimous and AllPassChecklist do not depend on the order in which
-- the signals were gathered.
use mathlib.Core.List.{Perm}
use meristem.Base.{
  String, Bool, true, false, ◌&&◌, List, [], ◌∷◌, ◌≡◌, refl, arith, contains, count_if-Perm,
  any-Perm, strip_prefix?,
}
use meristem.Convergence.{Signal}
use meristem.Convergence.Reducers.{
  checklist_item_prefix, collapse, counts_for, tally, survey, missing_names, failing_names, judge,
  majority_vote, unanimous, all_pass_checklist,
}
use meristem.Convergence.Reducers.Votes.{casts, votes, tally_lem, survey_lem}
use meristem.Convergence.Reducers.Checklist.{names, reported, collapse_lem}

names_agree :
    (required : List String) (a b : List String × List String)
    → ((n : String) → (contains a.0 n ≡ contains b.0 n) × (contains a.1 n ≡ contains b.1 n))
    → (missing_names required a ≡ missing_names required b)
      × (failing_names required a ≡ failing_names required b)
unfolding missing_names failing_names
names_agree [] a b h = (refl, refl)
names_agree (r ∷ rs) a b h = ground (arith, h r, names_agree rs a b h)

module _ {F : Type 0} {ss ts : List (Signal F)} (p : Perm ss ts) where
  votes-Perm : (b : Bool) (kind : String) → votes b kind ss ≡ votes b kind ts
  votes-Perm b kind = count_if-Perm (λ s. counts_for kind s && casts b s.pass) p

  reported-Perm : (b : Bool) (name : String) → reported b name ss ≡ reported b name ts
  reported-Perm b name =
      any-Perm (λ s. names name (strip_prefix? checklist_item_prefix s.kind) && casts b s.pass) p

  tally-Perm : (kind : String) → tally kind ss (0, 0) ≡ tally kind ts (0, 0)
  tally-Perm kind = ground (
    arith,
    tally_lem kind ss 0 0,
    tally_lem kind ts 0 0,
    votes-Perm true kind,
    votes-Perm false kind,
  )

  survey-Perm : (kind : String) → survey kind ss (0, 0) ≡ survey kind ts (0, 0)
  survey-Perm kind = ground (
    arith,
    survey_lem kind ss 0 0,
    survey_lem kind ts 0 0,
    votes-Perm true kind,
    votes-Perm false kind,
  )

  collapse-Perm :
      (n : String)
      → (contains (collapse ss ([], [])).0 n ≡ contains (collapse ts ([], [])).0 n)
        × (contains (collapse ss ([], [])).1 n ≡ contains (collapse ts ([], [])).1 n)
  collapse-Perm n = ground (
    arith,
    collapse_lem n ss ([], []) refl,
    collapse_lem n ts ([], []) refl,
    reported-Perm true n,
    reported-Perm false n,
  )

  checklist-Perm :
      (required : List String) → all_pass_checklist required ss ≡ all_pass_checklist required ts
  unfolding all_pass_checklist judge
  checklist-Perm [] = refl
  checklist-Perm (r ∷ rs) =
      let e = names_agree (r ∷ rs) (collapse ss ([], [])) (collapse ts ([], [])) collapse-Perm in
      rw (e.0, e.1)

  -- Reordering the signals changes neither the disposition nor the recorded reason.
  pub reduce_order :
      (kind : String) (required : List String)
      → (majority_vote kind ss ≡ majority_vote kind ts)
        × (unanimous kind ss ≡ unanimous kind ts)
        × (all_pass_checklist required ss ≡ all_pass_checklist required ts)
  unfolding majority_vote unanimous
  reduce_order kind required =
      (rw (tally-Perm kind), rw (survey-Perm kind), checklist-Perm required)
