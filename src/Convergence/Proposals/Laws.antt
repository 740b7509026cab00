-- ===== src/Convergence/Proposals/Laws.antt =====
-- What HumanAck, ChecksProposal and KnownReducer decide.
use meristem.Base.{
  String, Bool, true, false, ◌&&◌, ◌||◌, not, Option, none, some, List, [], ◌∷◌, ◌++◌, ◌≡◌, refl,
  str_eq, if◌then◌else◌, arith, any, is_empty, is_empty-sort_strings, sort_strings, Bool-cases, inl,
  inr,
}
use meristem.Domain.{Disposition}
use meristem.Convergence.{Signal}
use meristem.Convergence.Reducers.Votes.{casts}
use meristem.Convergence.Proposals.{
  checks_proposal_valid_kind, gather, note_proposal, proposal_of, checks_proposal, decision?,
  human_ack,
}

is_empty-snoc : (xs : List String) (x : String) → is_empty (xs ++ x ∷ []) ≡ false
is_empty-snoc [] x = refl
is_empty-snoc (y ∷ ys) x = refl

note_proposal_lem :
    (raw : String) (pass : Option Bool) (n : Bool × List String)
    → ((note_proposal raw pass n).0 ≡ (n.0 || casts true pass))
      × (is_empty (note_proposal raw pass n).1 ≡ (is_empty n.1 && not (casts false pass)))
unfolding note_proposal
note_proposal_lem raw none n = ground arith
note_proposal_lem raw (some true) n = ground arith
note_proposal_lem raw (some false) n = ground (arith, is_empty-snoc n.1)

proposal_of-disposition :
    (saw : Bool) (failures : List String)
    → (proposal_of saw failures).disposition ≡ (
        if is_empty failures
        then (if saw then Disposition.accept else Disposition.escalate)
        else Disposition.reject)
unfolding proposal_of
proposal_of-disposition saw (f ∷ fs) = refl
proposal_of-disposition true [] = refl
proposal_of-disposition false [] = refl

module _ {F : Type 0} where
  abbrev pub proposes : Bool → List (Signal F) → Bool
  proposes b = any (λ s. str_eq s.kind checks_proposal_valid_kind && casts b s.pass)

  gather_lem :
      (ss : List (Signal F)) (n : Bool × List String)
      → ((gather ss n).0 ≡ (n.0 || proposes true ss))
        × (is_empty (gather ss n).1 ≡ (is_empty n.1 && not (proposes false ss)))
  unfolding gather
  gather_lem [] n = ground arith
  gather_lem (s ∷ ss) n =
      let n' = note_proposal s.raw s.pass n in
      elim (Bool-cases (str_eq s.kind checks_proposal_valid_kind)) [
        | inl e ↦ rw e (ground (arith, e, gather_lem ss n', note_proposal_lem s.raw s.pass n))
        | inr e ↦ rw e (ground (arith, e, gather_lem ss n))
      ]

  -- ChecksProposal rejects exactly when a validation signal fails, whatever came before or after
  -- it; else it accepts if one passes, and escalates when there is none.
  pub checks_proposal-disposition :
      (signals : List (Signal F))
      → (checks_proposal signals).disposition ≡ (
          if proposes false signals
          then Disposition.reject
          else if proposes true signals
          then Disposition.accept
          else Disposition.escalate)
  unfolding checks_proposal
  checks_proposal-disposition signals =
      let n = gather signals (false, []) in
      ground (
        arith,
        gather_lem signals (false, []),
        proposal_of-disposition n.0 (sort_strings n.1),
        is_empty-sort_strings n.1,
      )

  abbrev pub decides : Signal F → Bool
  decides s = elim (decision? s) [ none ↦ false | some _ ↦ true ]

  -- HumanAck follows the first decision signal: what stands before it decides nothing, and what
  -- comes after it changes nothing.
  pub human_ack-append :
      (before after : List (Signal F)) (s : Signal F) (b : Bool)
      → any decides before ≡ false
      → decision? s ≡ some b
      → (human_ack (before ++ s ∷ after) ≡ human_ack (s ∷ []))
        × ((human_ack (s ∷ [])).disposition
            ≡ (if b then Disposition.accept else Disposition.reject))
  unfolding human_ack
  human_ack-append [] after s b h d = ground arith
  human_ack-append (x ∷ xs) after s b h d = ground (arith, human_ack-append xs after s b)
