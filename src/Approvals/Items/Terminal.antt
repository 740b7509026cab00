-- ===== src/Approvals/Items/Terminal.antt =====
-- The methods of internal/approvals leave terminal work items alone.
use meristem.Base.{
  ℕ, String, Bool, true, ◌||◌, not, Option, none, some, List, [], ◌∷◌, ◌≡◌, inl, inr, refl, sym,
  ◌∙◌, ap, arith, ◌==◌, str_eq, Bool-cases, trim_space,
}
use meristem.Domain.{Uuid, WorkItem, WorkItemState, nil_uuid, terminal}
use meristem.Store.{find_item}
use meristem.Approvals.{
  Approval, Fact, approval_decided, approval_expired, ApprovalStore, ok, find_approval,
}
use meristem.Approvals.Service.{
  CreateInput, DecisionInput, ExpireInput, is_requester, is_pending, decidable, is_human,
  create_for, create_in_tx, create, decide_row, decide, expire_row, expire, target_of, chosen_id,
  or_expired,
}
use meristem.Approvals.Change.{
  Call, creating, deciding, expiring, call, calls, then_append_parts, answered_store,
}
use meristem.Approvals.Calls.{guarded}
use meristem.Approvals.Items.{
  Rests, Rests-same, Rests-then, same_item, awaited_Rests, appended_items, created_items,
  decided_items, expired_items, ruled_Rests,
}

module _ (event_id : Fact → String → Uuid) (id : Uuid) where
  module _ (disc : String) (now : ℕ) (s : ApprovalStore) where
    create_for-Rests :
        (input : CreateInput) (k : Uuid) (summary : String) (expires_at : ℕ) (o : Option WorkItem)
        {answer : Uuid × Bool} {s' : ApprovalStore}
        → find_item input.work_item_id s.items ≡ o
        → create_for event_id input k summary expires_at disc now s o ≡ ok (answer, s')
        → Rests id s s'
    create_for-Rests input k summary expires_at none f h = absurd cc
    create_for-Rests input k summary expires_at (some item) {answer} {s'} f h =
        elim (Bool-cases (terminal item.state)) [
          | inl e ↦ absurd (ground (arith, h, e))
          | inr e ↦
              let (s1, w, r) = then_append_parts event_id _ _ (rw e at h) in
              let q =
                appended_items event_id id _ "" input.actor now s
                  (created_items event_id id k input.work_item_id summary _ expires_at) w in
              Rests-then id s s1 s' (Rests-same id s s1 q) (
                awaited_Rests event_id id input.actor item input.work_item_id summary disc now s1
                  (λ other g.
                    ap (λ (w : WorkItem). terminal w.state)
                      (same_item event_id id
                        (sym f ∙ (sym (ap (find_item input.work_item_id) q) ∙ g)))
                    ∙ e)
                  r)
        ]

    create_in_tx-Rests :
        (input : CreateInput) (k : Uuid) (clock : ℕ) {answer : Uuid × Bool} {s' : ApprovalStore}
        → create_in_tx event_id input k clock disc now s ≡ ok (answer, s')
        → Rests id s s'
    unfolding create_in_tx
    create_in_tx-Rests input k clock h = elim (Bool-cases (input.actor.id == nil_uuid)) [
      | inl e ↦ absurd (ground (arith, h, e))
      | inr e ↦ elim (Bool-cases (input.work_item_id == nil_uuid)) [
        | inl f ↦ absurd (ground (arith, h, e, f))
        | inr f ↦ elim (Bool-cases (str_eq (trim_space input.summary) "")) [
          | inl g ↦ absurd (ground (arith, h, e, f, g))
          | inr g ↦
              create_for-Rests input k _ _ (find_item input.work_item_id s.items) refl
                (rw (e, f, g) at h)
        ]
      ]
    ]

    create-Rests :
        (input : CreateInput) (new_id : Uuid) (clock : ℕ)
        → Rests id s (create event_id input new_id clock disc now s).1
    unfolding create
    create-Rests input new_id clock =
        let k = chosen_id input new_id in
        answered_store event_id (Rests id s) k s (create_in_tx event_id input k clock disc now s)
          (Rests-same id s s refl) (λ answer s' h. create_in_tx-Rests input k clock h)

    decide_row-Rests :
        (input : DecisionInput) (o : Option Approval)
        → Rests id s (decide_row event_id input disc now s o).1
    decide_row-Rests input none = Rests-same id s s refl
    decide_row-Rests input (some current) =
        elim (Bool-cases (is_requester current.requested_by input.actor.id)) [
          | inl e ↦ rw e (Rests-same id s s refl)
          | inr e ↦ elim (Bool-cases (is_pending current.status)) [
            | inr p ↦
                Rests-same id s (decide_row event_id input disc now s (some current)).1
                  (ground (arith, e, p))
            | inl p ↦
                rw (e, p)
                  (ruled_Rests event_id id
                    (approval_decided input.approval_id current.work_item_id input.decision
                      (trim_space input.reason))
                    input.approval_id current.work_item_id input.actor (target_of input.decision).0
                    (target_of input.decision).1 disc now s
                    (decided_items event_id id input.approval_id current.work_item_id input.decision
                      (trim_space input.reason)))
          ]
        ]

    decide-Rests : (input : DecisionInput) → Rests id s (decide event_id input disc now s).1
    unfolding decide
    decide-Rests input =
        let unchanged = Rests-same id s s refl in
        guarded (Rests id s) (input.actor.id == nil_uuid) _ _ unchanged (λ a.
          guarded (Rests id s) (input.actor.is_root || not (is_human input.actor.source)) _ _
            unchanged
            (λ h. guarded (Rests id s) (input.approval_id == nil_uuid) _ _ unchanged (λ b.
              guarded (Rests id s) (not (decidable input.decision)) _ _ unchanged
                (λ d. decide_row-Rests input (find_approval input.approval_id s.approvals)))))

    expire_row-Rests :
        (input : ExpireInput) (o : Option Approval)
        → Rests id s (expire_row event_id input disc now s o).1
    expire_row-Rests input none = Rests-same id s s refl
    expire_row-Rests input (some current) = elim (Bool-cases (is_pending current.status)) [
      | inr p ↦
          Rests-same id s (expire_row event_id input disc now s (some current)).1
            (ground (arith, p))
      | inl p ↦ rw p (
          ruled_Rests event_id id
            (approval_expired input.approval_id current.work_item_id
              (or_expired (trim_space input.reason)))
            input.approval_id current.work_item_id input.actor WorkItemState.blocked
            "approval_expired" disc now s
            (expired_items event_id id input.approval_id current.work_item_id
              (or_expired (trim_space input.reason))))
    ]

    expire-Rests : (input : ExpireInput) → Rests id s (expire event_id input disc now s).1
    unfolding expire
    expire-Rests input =
        let unchanged = Rests-same id s s refl in
        guarded (Rests id s) (input.actor.id == nil_uuid) _ _ unchanged (λ a.
          guarded (Rests id s) (input.approval_id == nil_uuid) _ _ unchanged
            (λ b. expire_row-Rests input (find_approval input.approval_id s.approvals)))

  call-Rests : (c : Call) (s : ApprovalStore) → Rests id s (call event_id c s)
  call-Rests (creating input new_id clock disc now) s = create-Rests disc now s input new_id clock
  call-Rests (deciding input disc now) s = decide-Rests disc now s input
  call-Rests (expiring input disc now) s = expire-Rests disc now s input

  -- A work item in a terminal state is what it is after any calls: no request, decision or expiry
  -- of an approval moves it.
  pub terminal_item_stays :
      (cs : List Call) (s : ApprovalStore) (item : WorkItem)
      → find_item id s.items ≡ some item
      → terminal item.state ≡ true
      → find_item id (calls event_id cs s).items ≡ some item
  unfolding calls
  terminal_item_stays [] s item f t = f
  terminal_item_stays (c ∷ cs) s item f t =
      terminal_item_stays cs (call event_id c s) item (call-Rests c s item f t) t
