-- ===== src/Approvals/Calls.antt =====
-- Each method of internal/approvals changes the row of an approval in one of the ways of Change.
pub mod Methods
use meristem.Base.{
  ℕ, String, Bool, true, false, ◌||◌, not, Option, none, some, List, [], ◌∷◌, ◌++◌, ◌≡◌, ◌⊎◌, inl,
  inr, refl, sym, ◌∙◌, ap, subst, arith, ◌==◌, ==_iff, str_eq, if◌then◌else◌, Bool-cases,
  trim_space,
}
use meristem.Domain.{Uuid, Token, WorkItem, WorkItemState, nil_uuid, terminal, state_eq}
use meristem.Store.{find_item}
use meristem.Approvals.{
  Approval, Status, Decision, Fact, approval_decided, approval_expired, Rows, ApprovalStore, Result,
  ok, find_approval, update_approval, rule, new_approval, apply_created, apply_decided,
  apply_expired, apply_fact, append,
}
use meristem.Approvals.Service.{
  CreateInput, DecisionInput, ExpireInput, Answer, is_requester, is_pending, decidable, is_human,
  answered, then_append, append_transition, await_approval, create_for, create_in_tx, create,
  decide_row, decide, expire_row, expire, target_of, chosen_id, or_expired,
}
use meristem.Approvals.Change.{
  Call, creating, deciding, expiring, call, signs, is_ruled, Change, same, added, ruled, or_row,
  find_approval-rule, find_approval-append, found_id, append_rows, then_append_parts,
  transition_approvals, append_transition_approvals, answered_store,
}

-- The status that a decision of Decide gives an approval.
abbrev pub recorded_status : Decision → Option Status
recorded_status Decision.approved = some Status.approved
recorded_status Decision.denied = some Status.denied
recorded_status _ = none

abbrev pub ChangeIn : Call → Uuid → List Approval → List Approval → Type 0
ChangeIn c id xs ys = Change c (find_approval id xs) (find_approval id ys)

pub decidable_status :
    (d : Decision)
    → not (decidable d) ≡ false
    → (status : Status) × (recorded_status d ≡ some status)
decidable_status Decision.approved h = (Status.approved, refl)
decidable_status Decision.denied h = (Status.denied, refl)
decidable_status Decision.expired h = absurd cc
decidable_status (Decision.unknown t) h = absurd cc

-- What holds of a result that a guard chooses.
pub guarded :
    (P : ApprovalStore → Type 0) (b : Bool) (x y : Result Answer × ApprovalStore)
    → P x.1
    → (b ≡ false → P y.1)
    → P (if b then x else y).1
guarded P true x y p q = p
guarded P false x y p q = q refl

pub kept : (c : Call) (id : Uuid) {xs ys : List Approval} → ys ≡ xs → ChangeIn c id xs ys
kept c id h = same (ap (find_approval id) h)

-- The rows that a ruling on a pending approval has written.
ruling :
    (c : Call) (id k : Uuid) (status : Status) (decision : Decision) (reason : String)
    (actor : Token) (now : ℕ) (xs ys : List Approval) (current : Approval)
    → find_approval k xs ≡ some current
    → is_pending current.status ≡ true
    → ys ≡ update_approval k (rule status decision reason actor now) xs
    → (is_ruled status ≡ true → signs (rule status decision reason actor now current) c ≡ true)
    → ChangeIn c id xs ys
ruling c id k status decision reason actor now xs ys current f p h s = elim (Bool-cases (k == id)) [
  | inl e ↦
      let g : find_approval id xs ≡ some current =
        subst (λ i. find_approval i xs ≡ some current) ((==_iff k id).0 e) f in
      ruled current (rule status decision reason actor now current) g p
        (ap (find_approval id) h
          ∙ (find_approval-rule id k status decision reason actor now xs ∙ rw (e, g) refl))
        s
  | inr e ↦ same (
      ap (find_approval id) h
      ∙ (find_approval-rule id k status decision reason actor now xs ∙ rw e refl))
]

module _ (c : Call) (id k item : Uuid) (summary request : String) (expires_at : ℕ) (actor : Token)
    (now : ℕ) (t : Rows) where
  abbrev asked_row : Approval
  asked_row = new_approval k item summary request expires_at actor now

  created_rows :
      {t' : Rows}
      → apply_created k item summary request expires_at actor now t ≡ ok t'
      → (t'.approvals ≡ t.approvals) ⊎ (t'.approvals ≡ t.approvals ++ asked_row ∷ [])
  unfolding apply_created
  created_rows h = ground (arith, h)

  created_Change :
      {t' : Rows}
      → apply_created k item summary request expires_at actor now t ≡ ok t'
      → ChangeIn c id t.approvals t'.approvals
  created_Change {t'} h = elim (created_rows h) [
    | inl e ↦ kept c id e
    | inr e ↦
        placed (find_approval id t.approvals) (k == id) refl refl
          (ap (find_approval id) e ∙ find_approval-append id t.approvals asked_row)
  ]
    where
      placed :
          (o : Option Approval) (b : Bool)
          → find_approval id t.approvals ≡ o
          → (k == id) ≡ b
          → find_approval id t'.approvals
            ≡ or_row (find_approval id t.approvals) (if k == id then some asked_row else none)
          → ChangeIn c id t.approvals t'.approvals
      placed (some x) b f e h = same (h ∙ rw f refl)
      placed none true f e h = added asked_row f (h ∙ rw (f, e) refl) refl
      placed none false f e h = same (h ∙ rw (f, e) refl)

module _ (event_id : Fact → String → Uuid) where
  awaited :
      (actor : Token) (item : WorkItem) (k : Uuid) (summary disc : String) (now : ℕ)
      (s : ApprovalStore) {s' : ApprovalStore}
      → await_approval event_id actor item k summary disc now s ≡ ok s'
      → s'.approvals ≡ s.approvals
  awaited actor item k summary disc now s {s'} h =
      elim (Bool-cases (state_eq item.state WorkItemState.awaiting_approval)) [
        | inl e ↦ ground (arith, h, e)
        | inr e ↦
            transition_approvals event_id k item.state WorkItemState.awaiting_approval _ disc actor
              now s (rw e at h)
      ]

  module _ (c : Call) (id : Uuid) (input : CreateInput) (k : Uuid) (disc : String) (now : ℕ)
      (s : ApprovalStore) where
    create_for-Change :
        (summary : String) (expires_at : ℕ) (o : Option WorkItem) {answer : Uuid × Bool}
        {s' : ApprovalStore}
        → create_for event_id input k summary expires_at disc now s o ≡ ok (answer, s')
        → ChangeIn c id s.approvals s'.approvals
    create_for-Change summary expires_at none h = absurd cc
    create_for-Change summary expires_at (some item) {answer} {s'} h =
        elim (Bool-cases (terminal item.state)) [
          | inl e ↦ absurd (ground (arith, h, e))
          | inr e ↦
              let (s1, w, r) = then_append_parts event_id _ _ (rw e at h) in
              let q = awaited input.actor item input.work_item_id summary disc now s1 r in
              subst (λ ys. ChangeIn c id s.approvals ys) (sym q)
                (elim (append_rows event_id _ "" input.actor now s w) [
                  | inl x ↦ kept c id (ap (λ t. t.approvals) x)
                  | inr x ↦
                      created_Change c id k input.work_item_id summary _ expires_at input.actor now
                        s.rows x
                ])
        ]

    pub create_in_tx-Change :
        (clock : ℕ) {answer : Uuid × Bool} {s' : ApprovalStore}
        → create_in_tx event_id input k clock disc now s ≡ ok (answer, s')
        → ChangeIn c id s.approvals s'.approvals
    unfolding create_in_tx
    create_in_tx-Change clock h = elim (Bool-cases (input.actor.id == nil_uuid)) [
      | inl e ↦ absurd (ground (arith, h, e))
      | inr e ↦ elim (Bool-cases (input.work_item_id == nil_uuid)) [
        | inl f ↦ absurd (ground (arith, h, e, f))
        | inr f ↦ elim (Bool-cases (str_eq (trim_space input.summary) "")) [
          | inl g ↦ absurd (ground (arith, h, e, f, g))
          | inr g ↦ create_for-Change _ _ (find_item input.work_item_id s.items) (rw (e, f, g) at h)
        ]
      ]
    ]

  -- What a ruling on a pending approval, with the transition after it, leaves.
  pub ruled_Change :
      (c : Call) (id k item : Uuid) (fact : Fact) (status : Status) (decision : Decision)
      (reason : String) (actor : Token) (to : WorkItemState) (why disc : String) (now : ℕ)
      (s : ApprovalStore) (current : Approval)
      → find_approval k s.approvals ≡ some current
      → is_pending current.status ≡ true
      → ((t : Rows)
          → apply_fact fact actor now s.rows ≡ ok t
          → t.approvals ≡ update_approval k (rule status decision reason actor now) s.approvals)
      → (is_ruled status ≡ true → signs (rule status decision reason actor now current) c ≡ true)
      → ChangeIn c id s.approvals
          (answered k s (
            then_append
              (append event_id fact disc actor now s)
              (append_transition event_id actor item to why disc now))).1.approvals
  ruled_Change c id k item fact status decision reason actor to why disc now s current f p applied
        signed =
      answered_store event_id (λ x. ChangeIn c id s.approvals x.approvals) k s
        (then_append (append event_id fact disc actor now s)
          (append_transition event_id actor item to why disc now))
        (kept c id refl)
        (λ answer s' h.
          let (s1, w, r) =
            then_append_parts event_id (append event_id fact disc actor now s)
              (append_transition event_id actor item to why disc now) h in
          let q = append_transition_approvals event_id actor item to why disc now s1 r in
          subst (λ ys. ChangeIn c id s.approvals ys) (sym q)
            (elim (append_rows event_id fact disc actor now s w) [
              | inl x ↦ kept c id (ap (λ t. t.approvals) x)
              | inr x ↦
                  ruling c id k status decision reason actor now s.approvals s1.approvals current f
                    p (applied s1.rows x) signed
            ]))
