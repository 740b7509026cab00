-- ===== src/Convergence/Registry/Laws.antt =====
-- What the registry keeps: one reducer to an identity, for good.
use meristem.Base.{String, some, ◌≡◌, str_eq, if◌then◌else◌, arith, eq_refl}
use meristem.Convergence.{Reducer, ok, err, already_registered, unknown_reducer}
use meristem.Convergence.Registry.{
  Registry, lookup, register, get, default_registry, majority_vote_reducer, unanimous_reducer,
  checks_proposal_reducer, human_ack_reducer,
}

module _ {F : Type 0} where
  -- A successful Register makes its reducer the one that Get finds under its identity, and changes
  -- no other answer; registering another reducer under an identity that Get knows is refused.
  pub get-register :
      (r : Reducer F) (reg reg' : Registry F) (id : String)
      → register (some r) reg ≡ ok reg'
      → (get reg' id ≡ (if str_eq r.identity id then ok r else get reg id))
        × (get reg r.identity ≡ err (unknown_reducer r.identity))
        × (register (some r) reg' ≡ err (already_registered r.identity))
  unfolding register get lookup
  get-register r reg reg' id h = ground (arith, eq_refl r.identity)

  -- The default registry answers the four parameter-free identities with their reducers, and no
  -- other: threshold_mean and all_pass_checklist, which need parameters, are unknown to it.
  pub get-default_registry :
      (id : String)
      → get (default_registry {F = F}) id ≡ (
          if str_eq "human_ack" id
          then ok human_ack_reducer
          else if str_eq "checks_proposal" id
          then ok checks_proposal_reducer
          else if str_eq "unanimous" id
          then ok (unanimous_reducer "")
          else if str_eq "majority_vote" id
          then ok (majority_vote_reducer "")
          else err (unknown_reducer id))
  unfolding get default_registry register lookup
  get-default_registry id = ground arith
