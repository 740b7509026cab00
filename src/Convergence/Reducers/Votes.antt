-- ===== src/Convergence/Reducers/Votes.antt =====
-- What MajorityVote and Unanimous decide, stated by counting signals.
use meristem.Base.{
  ℕ, ◌+◌, String, Bool, true, false, ◌&&◌, Option, some, none, List, [], ◌∷◌, ◌≡◌, ltb,
  if◌then◌else◌, arith, count_if,
}
use meristem.Domain.{Disposition}
use meristem.Convergence.{Signal}
use meristem.Convergence.Reducers.{counts_for, tally, survey, majority_vote, unanimous}

-- A signal that votes, and votes `b`.
abbrev pub casts : Bool → Option Bool → Bool
casts b none = false
casts true (some p) = p
casts false (some true) = false
casts false (some false) = true

module _ {F : Type 0} where
  abbrev pub votes : Bool → String → List (Signal F) → ℕ
  votes b kind signals = count_if (λ s. counts_for kind s && casts b s.pass) signals

  pub tally_lem :
      (kind : String) (ss : List (Signal F)) (p f : ℕ)
      → tally kind ss (p, f) ≡ (p + votes true kind ss, f + votes false kind ss)
  unfolding tally
  tally_lem kind [] p f = ground arith
  tally_lem kind (s ∷ ss) p f =
      ground
        (arith, tally_lem kind ss p f, tally_lem kind ss (p + 1) f, tally_lem kind ss p (f + 1))

  pub survey_lem :
      (kind : String) (ss : List (Signal F)) (n f : ℕ)
      → survey kind ss (n, f)
        ≡ (n + votes true kind ss + votes false kind ss, f + votes false kind ss)
  unfolding survey
  survey_lem kind [] n f = ground arith
  survey_lem kind (s ∷ ss) n f = ground (
    arith,
    survey_lem kind ss n f,
    survey_lem kind ss (n + 1) f,
    survey_lem kind ss (n + 1) (f + 1),
  )

  -- MajorityVote accepts exactly when more of the qualifying signals pass than fail, rejects
  -- exactly when more fail, and escalates on a tie, an empty one included.
  pub majority_vote-disposition :
      (kind : String) (ss : List (Signal F))
      → (majority_vote kind ss).disposition ≡ (
          if ltb (votes false kind ss) (votes true kind ss)
          then Disposition.accept
          else if ltb (votes true kind ss) (votes false kind ss)
          then Disposition.reject
          else Disposition.escalate)
  unfolding majority_vote
  majority_vote-disposition kind ss = ground (arith, tally_lem kind ss 0 0)

  -- Unanimous rejects exactly when a qualifying signal fails, else accepts if one passes, and
  -- escalates when none qualifies.
  pub unanimous-disposition :
      (kind : String) (ss : List (Signal F))
      → (unanimous kind ss).disposition ≡ (
          if ltb 0 (votes false kind ss)
          then Disposition.reject
          else if ltb 0 (votes true kind ss)
          then Disposition.accept
          else Disposition.escalate)
  unfolding unanimous
  unanimous-disposition kind ss = ground (arith, survey_lem kind ss 0 0)

  -- Where Unanimous accepts, MajorityVote over the same kind accepts too, and where MajorityVote
  -- rejects, Unanimous rejects.
  pub unanimous_stricter :
      (kind : String) (ss : List (Signal F))
      → ((unanimous kind ss).disposition ≡ Disposition.accept
          → (majority_vote kind ss).disposition ≡ Disposition.accept)
        × ((majority_vote kind ss).disposition ≡ Disposition.reject
            → (unanimous kind ss).disposition ≡ Disposition.reject)
  unanimous_stricter kind ss =
      let m = majority_vote-disposition kind ss in
      let u = unanimous-disposition kind ss in
      (λ h. ground (arith, m, u, h), λ h. ground (arith, m, u, h))
