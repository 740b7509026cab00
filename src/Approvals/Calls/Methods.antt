-- ===== src/Approvals/Calls/Methods.antt =====
-- Create, Decide and Expire of internal/approvals, case by case.
use meristem.Base.{
  ℕ, String, false, ◌||◌, not, Option, none, some, ◌≡◌, inl, inr, refl, arith, ◌==◌, ==_iff,
  Bool-cases, trim_space,
}
use meristem.Domain.{Uuid, WorkItemState, nil_uuid}
use meristem.Approvals.{
  Approval, Status, Decision, Fact, approval_decided, approval_expired, Rows, ApprovalStore, ok,
  find_approval, update_approval, rule, apply_decided, apply_expired, apply_fact,
}
use meristem.Approvals.Service.{
  CreateInput, DecisionInput, ExpireInput, is_requester, is_pending, decidable, is_human,
  create_in_tx, create, decide_row, decide, expire_row, expire, target_of, chosen_id, or_expired,
}
use meristem.Approvals.Change.{Call, creating, deciding, expiring, call, found_id, answered_store}
use meristem.Approvals.Calls.{
  recorded_status, decidable_status, kept, create_in_tx-Change, ruled_Change, ChangeIn, guarded,
}

module _ (event_id : Fact → String → Uuid) where
  module _ (id : Uuid) (disc : String) (now : ℕ) (s : ApprovalStore) where
    create-Change :
        (input : CreateInput) (new_id : Uuid) (clock : ℕ)
        → ChangeIn
            (creating input new_id clock disc now)
            id
            s.approvals
            (create event_id input new_id clock disc now s).1.approvals
    unfolding create
    create-Change input new_id clock =
        let c = creating input new_id clock disc now in
        let k = chosen_id input new_id in
        answered_store event_id (λ x. ChangeIn c id s.approvals x.approvals) k s
          (create_in_tx event_id input k clock disc now s) (kept c id refl)
          (λ answer s' h. create_in_tx-Change event_id c id input k disc now s clock h)

    module _ (input : DecisionInput) where
      abbrev decision_call : Call
      decision_call = deciding input disc now

      decided_rows :
          (status : Status) (item : Uuid) (reason : String)
          → recorded_status input.decision ≡ some status
          → (t : Rows)
          → apply_fact
              (approval_decided input.approval_id item input.decision reason)
              input.actor
              now
              s.rows
            ≡ ok t
          → t.approvals
            ≡ update_approval input.approval_id
                (rule status input.decision reason input.actor now)
                s.approvals
      unfolding apply_decided
      decided_rows status item reason q t h = ground (arith, q, h)

      decide_row-Change :
          (o : Option Approval) (status : Status)
          → find_approval input.approval_id s.approvals ≡ o
          → (input.actor.is_root || not (is_human input.actor.source)) ≡ false
          → recorded_status input.decision ≡ some status
          → ChangeIn decision_call id s.approvals
              (decide_row event_id input disc now s o).1.approvals
      decide_row-Change none status f human d = kept decision_call id refl
      decide_row-Change (some current) status f human d =
          elim (Bool-cases (is_requester current.requested_by input.actor.id)) [
            | inl e ↦ rw e (kept decision_call id refl)
            | inr e ↦ elim (Bool-cases (is_pending current.status)) [
              | inr p ↦ kept decision_call id (ground (arith, e, p))
              | inl p ↦
                  rw (e, p)
                    (ruled_Change event_id decision_call id input.approval_id current.work_item_id
                      (approval_decided input.approval_id current.work_item_id input.decision
                        (trim_space input.reason))
                      status input.decision (trim_space input.reason) input.actor
                      (target_of input.decision).0 (target_of input.decision).1 disc now s current f
                      p (decided_rows status current.work_item_id (trim_space input.reason) d)
                      (λ r. ground (
                        arith,
                        human,
                        d,
                        e,
                        found_id input.approval_id s.approvals f,
                        (==_iff current.id input.approval_id).0
                            (found_id input.approval_id s.approvals f),
                        (==_iff input.actor.id input.actor.id).1 refl,
                      )))
            ]
          ]

      decide-Change :
          ChangeIn decision_call id s.approvals (decide event_id input disc now s).1.approvals
      unfolding decide
      decide-Change =
          let P : ApprovalStore → Type 0 = λ x. ChangeIn decision_call id s.approvals x.approvals in
          let unchanged = kept decision_call id refl in
          guarded P (input.actor.id == nil_uuid) _ _ unchanged (λ a.
            guarded P (input.actor.is_root || not (is_human input.actor.source)) _ _ unchanged (λ h.
              guarded P (input.approval_id == nil_uuid) _ _ unchanged (λ b.
                guarded P (not (decidable input.decision)) _ _ unchanged (λ d.
                  let (status, q) = decidable_status input.decision d in
                  decide_row-Change (find_approval input.approval_id s.approvals) status refl h
                    q))))

    module _ (input : ExpireInput) where
      abbrev expire_call : Call
      expire_call = expiring input disc now

      expire_row-Change :
          (o : Option Approval)
          → find_approval input.approval_id s.approvals ≡ o
          → ChangeIn expire_call id s.approvals (expire_row event_id input disc now s o).1.approvals
      unfolding apply_expired
      expire_row-Change none f = kept expire_call id refl
      expire_row-Change (some current) f = elim (Bool-cases (is_pending current.status)) [
        | inr p ↦ kept expire_call id (ground (arith, p))
        | inl p ↦ rw p (
            ruled_Change event_id expire_call id input.approval_id current.work_item_id
              (approval_expired input.approval_id current.work_item_id
                (or_expired (trim_space input.reason)))
              Status.expired Decision.expired (or_expired (trim_space input.reason)) input.actor
              WorkItemState.blocked "approval_expired" disc now s current f p
              (λ t h. ground (arith, h)) (λ r. cc))
      ]

      expire-Change :
          ChangeIn expire_call id s.approvals (expire event_id input disc now s).1.approvals
      unfolding expire
      expire-Change =
          let P : ApprovalStore → Type 0 = λ x. ChangeIn expire_call id s.approvals x.approvals in
          let unchanged = kept expire_call id refl in
          guarded P (input.actor.id == nil_uuid) _ _ unchanged (λ a.
            guarded P (input.approval_id == nil_uuid) _ _ unchanged
              (λ b. expire_row-Change (find_approval input.approval_id s.approvals) refl))

-- Every call changes the row of an approval in one of the ways of Change.
pub call-Change :
    (event_id : Fact → String → Uuid) (id : Uuid) (c : Call) (s : ApprovalStore)
    → ChangeIn c id s.approvals (call event_id c s).approvals
call-Change event_id id (creating input new_id clock disc now) s =
    create-Change event_id id disc now s input new_id clock
call-Change event_id id (deciding input disc now) s = decide-Change event_id id disc now s input
call-Change event_id id (expiring input disc now) s = expire-Change event_id id disc now s input
