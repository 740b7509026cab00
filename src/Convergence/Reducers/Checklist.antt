-- ===== src/Convergence/Reducers/Checklist.antt =====
-- When AllPassChecklist accepts, stated by what signals there are for each required name.
use meristem.Base.{
  ℕ, String, Bool, true, false, ◌&&◌, ◌||◌, not, Option, some, none, List, [], ◌∷◌, ◌≡◌, refl,
  str_eq, if◌then◌else◌, arith, any, contains, strip_prefix?, eq_iff, ap, all, is_empty, length,
  sort_strings, is_empty-sort_strings, Bool-cases, inl, inr,
}
use meristem.Domain.{Disposition}
use meristem.Convergence.{Signal}
use meristem.Convergence.Reducers.{
  checklist_of, judge, checklist_item_prefix, record_check, without_name, collapse, missing_names,
  failing_names, all_pass_checklist,
}
use meristem.Convergence.Reducers.Votes.{casts}

abbrev pub names : String → Option String → Bool
names name none = false
names name (some n) = str_eq n name

module _ {F : Type 0} where
  -- There is a signal of kind "checklist.item:<name>" that reads `b`.
  abbrev pub reported : Bool → String → List (Signal F) → Bool
  reported b name signals =
      any (λ s. names name (strip_prefix? checklist_item_prefix s.kind) && casts b s.pass) signals

contains-without_name :
    (n m : String) (xs : List String)
    → contains (without_name n xs) m ≡ (not (str_eq n m) && contains xs m)
contains-without_name n m [] = ground arith
contains-without_name n m (x ∷ xs) =
    ground (arith, contains-without_name n m xs, eq_iff n m, eq_iff x m, eq_iff x n)

-- No name is both in `passed` and in `failed`.
abbrev IsApart : List String × List String → String → Type 0
IsApart sets m = (contains sets.0 m && contains sets.1 m) ≡ false

module _ (m : String) (sets : List String × List String) where
  contains-record_check_failed :
      (o : Option String) (pass : Option Bool)
      → contains (record_check o pass sets).1 m
        ≡ (contains sets.1 m || (names m o && casts false pass))
  contains-record_check_failed o pass = ground arith

  contains-record_check_passed :
      (o : Option String) (pass : Option Bool)
      → IsApart sets m
      → contains (record_check o pass sets).0 m ≡ (
          (contains sets.0 m || (names m o && casts true pass))
          && not (contains sets.1 m || (names m o && casts false pass)))
  contains-record_check_passed none pass h = ground arith
  contains-record_check_passed (some n) none h = ground arith
  contains-record_check_passed (some n) (some true) h = elim (Bool-cases (str_eq n m)) [
    | inl e ↦ ground (arith, e, ap (contains sets.1) ((eq_iff n m).0 e))
    | inr e ↦ ground (arith, e)
  ]
  contains-record_check_passed (some n) (some false) h =
      ground (arith, eq_iff n m, contains-without_name n m sets.0)

record_check-IsApart :
    (m : String) (sets : List String × List String) (o : Option String) (pass : Option Bool)
    → IsApart sets m
    → IsApart (record_check o pass sets) m
record_check-IsApart m sets o pass h = ground (
  arith,
  contains-record_check_passed m sets o pass h,
  contains-record_check_failed m sets o pass,
)

module _ {F : Type 0} where
  pub collapse_lem :
      (m : String) (ss : List (Signal F)) (sets : List String × List String)
      → IsApart sets m
      → (contains (collapse ss sets).1 m ≡ (contains sets.1 m || reported false m ss))
        × (contains (collapse ss sets).0 m ≡ (
            (contains sets.0 m || reported true m ss)
            && not (contains sets.1 m || reported false m ss)))
  unfolding collapse
  collapse_lem m [] sets h = ground arith
  collapse_lem m (s ∷ ss) sets h =
      let o = strip_prefix? checklist_item_prefix s.kind in
      ground (
        arith,
        collapse_lem m ss (record_check o s.pass sets) (record_check-IsApart m sets o s.pass h),
        contains-record_check_passed m sets o s.pass h,
        contains-record_check_failed m sets o s.pass,
      )

checklist_of-disposition :
    (missing failing : List String) (n : ℕ)
    → (checklist_of missing failing n).disposition
      ≡ (if is_empty missing && is_empty failing then Disposition.accept else Disposition.reject)
unfolding checklist_of
checklist_of-disposition [] [] n = refl
checklist_of-disposition [] (f ∷ fs) n = refl
checklist_of-disposition (m ∷ ms) failing n = refl

nothing_named :
    (required : List String) (sets : List String × List String)
    → (is_empty (missing_names required sets) && is_empty (failing_names required sets))
      ≡ all (λ n. contains sets.0 n && not (contains sets.1 n)) required
unfolding missing_names failing_names
nothing_named [] sets = refl
nothing_named (r ∷ rs) sets = ground (arith, nothing_named rs sets)

module _ {F : Type 0} where
  -- A signal says that the check passed, and none says that it failed.
  abbrev pub satisfied : List (Signal F) → String → Bool
  satisfied signals name = reported true name signals && not (reported false name signals)

  all-satisfied :
      (required : List String) (signals : List (Signal F))
      → all
          (λ n.
            contains (collapse signals ([], [])).0 n
            && not (contains (collapse signals ([], [])).1 n))
          required
        ≡ all (satisfied signals) required
  all-satisfied [] signals = refl
  all-satisfied (r ∷ rs) signals =
      ground (arith, all-satisfied rs signals, collapse_lem r signals ([], []) refl)

  -- AllPassChecklist escalates when nothing is required; else it accepts exactly when every
  -- required check has a passing signal and no failing one, in whatever order they came, and
  -- rejects otherwise.
  pub all_pass_checklist-disposition :
      (required : List String) (signals : List (Signal F))
      → (all_pass_checklist required signals).disposition ≡ (
          if is_empty required
          then Disposition.escalate
          else if all (satisfied signals) required
          then Disposition.accept
          else Disposition.reject)
  unfolding all_pass_checklist judge
  all_pass_checklist-disposition [] signals = refl
  all_pass_checklist-disposition (r ∷ rs) signals =
      let sets = collapse signals ([], []) in
      let missing = missing_names (r ∷ rs) sets in
      let failing = failing_names (r ∷ rs) sets in
      ground (
        arith,
        checklist_of-disposition (sort_strings missing) (sort_strings failing) (length (r ∷ rs)),
        is_empty-sort_strings missing,
        is_empty-sort_strings failing,
        nothing_named (r ∷ rs) sets,
        all-satisfied (r ∷ rs) signals,
      )
