-- ===== src/Approvals/Items.antt =====
-- The work items that internal/approvals moves.
pub mod Terminal
use meristem.Base.{
  ℕ, ◌+◌, ◌/◌, String, Bool, true, false, ◌&&◌, ◌||◌, not, Option, none, some, List, [], ◌∷◌, ◌++◌,
  ◌≡◌, ◌⊎◌, inl, inr, refl, sym, ◌∙◌, ap, subst, arith, ◌==◌, ==_iff, str_eq, if◌then◌else◌,
  Bool-cases, trim_space,
}
use meristem.Domain.{
  Uuid, Token, WorkItem, WorkItemState, nil_uuid, terminal, can_transition, state_eq,
}
use meristem.Store.{find_item}
use meristem.WorkItems.Projectors.{update_item, move_item}
use meristem.Approvals.{
  Approval, Status, Decision, Fact, approval_created, approval_decided, approval_expired,
  work_item_transitioned, Rows, ApprovalStore, Result, ok, err, not_found, invalid_transition,
  find_approval, apply_created, apply_decided, apply_expired, apply_fact, Written, append,
}
use meristem.Approvals.Service.{
  CreateInput, DecisionInput, ExpireInput, Answer, is_requester, is_pending, recorded_as, decidable,
  is_human, answered, then_append, only_store, append_transition, await_approval, create_for,
  create_in_tx, create, decide_row, decide, expire_row, expire, target_of, chosen_id, or_expired,
}
use meristem.Approvals.Change.{
  Call, creating, deciding, expiring, call, calls, append_rows, then_append_parts, only_store_parts,
  answered_store,
}
use meristem.Approvals.Calls.{guarded}

-- A terminal item of this identifier is as it was.
abbrev pub Rests : Uuid → ApprovalStore → ApprovalStore → Type 0
Rests id s s' =
    (item : WorkItem)
    → find_item id s.items ≡ some item
    → terminal item.state ≡ true
    → find_item id s'.items ≡ some item

Rests-same : (id : Uuid) (s s' : ApprovalStore) → s'.items ≡ s.items → Rests id s s'
Rests-same id s s' e = λ item f t. ap (find_item id) e ∙ f

Rests-then : (id : Uuid) (s s1 s2 : ApprovalStore) → Rests id s s1 → Rests id s1 s2 → Rests id s s2
Rests-then id s s1 s2 a b = λ item f t. b item (a item f t) t

find_item-other :
    (id k : Uuid) (f : WorkItem → WorkItem) (ws : List WorkItem)
    → ((w : WorkItem) → (f w).id ≡ w.id)
    → (k == id) ≡ false
    → find_item id (update_item k f ws) ≡ find_item id ws
unfolding find_item update_item
find_item-other id k f [] p n = refl
find_item-other id k f (w ∷ ws) p n = elim (Bool-cases (w.id == k)) [
  | inl e ↦
      let g : (w.id == id) ≡ false = subst (λ i. (i == id) ≡ false) (sym ((==_iff w.id k).0 e)) n in
      rw (e, g, p w) (rw g (find_item-other id k f ws p n))
  | inr e ↦ rw e (elim (Bool-cases (w.id == id)) [
    | inl g ↦ rw g refl
    | inr g ↦ rw g (find_item-other id k f ws p n)
  ])
]

module _ (event_id : Fact → String → Uuid) (id : Uuid) where
  -- A move of an item that is not terminal.
  moved_Rests :
      (k : Uuid) (from to : WorkItemState) (reason disc : String) (actor : Token) (now : ℕ)
      (s : ApprovalStore) {s' : ApprovalStore}
      → ((item : WorkItem) → find_item k s.items ≡ some item → terminal item.state ≡ false)
      → only_store (append event_id (work_item_transitioned k from to reason) disc actor now s)
        ≡ ok s'
      → Rests id s s'
  moved_Rests k from to reason disc actor now s {s'} open_item h =
      let (answer, w) = only_store_parts event_id _ h in
      elim (append_rows event_id (work_item_transitioned k from to reason) disc actor now s w) [
        | inl e ↦ Rests-same id s s' (ap (λ t. t.items) e)
        | inr e ↦ elim (Bool-cases (k == id)) [
          | inl q ↦ λ item f t. cc (
            open_item item
                (subst (λ i. find_item i s.items ≡ some item) (sym ((==_iff k id).0 q)) f),
            t,
          )
          | inr q ↦
              let written : s'.items ≡ update_item k (move_item from to reason now) s.items =
                ground (arith, e) in
              λ item f t.
                ap (find_item id) written
                ∙ (find_item-other id k (move_item from to reason now) s.items (λ w. refl) q ∙ f)
        ]
      ]

  same_item : {x y : WorkItem} → ◌≡◌ {A = Option WorkItem} (some x) (some y) → y ≡ x
  same_item h = ground arith

  not_terminal :
      (x y : WorkItemState) → state_eq x y ≡ false → can_transition x y ≡ true → terminal x ≡ false
  unfolding can_transition
  not_terminal x y n h = ground arith

  append_transition-Rests :
      (actor : Token) (k : Uuid) (to : WorkItemState) (reason disc : String) (now : ℕ)
      (s : ApprovalStore) {s' : ApprovalStore}
      → append_transition event_id actor k to reason disc now s ≡ ok s'
      → Rests id s s'
  unfolding append_transition
  append_transition-Rests actor k to reason disc now s {s'} h = on (find_item k s.items) refl h
    where
      on :
          (o : Option WorkItem)
          → find_item k s.items ≡ o
          → (elim o as (λ _. Result ApprovalStore) [
            | none ↦ err not_found
            | some item ↦
                if state_eq item.state to
                then ok s
                else if not (can_transition item.state to)
                then err (invalid_transition item.state to)
                else only_store (
                    append event_id
                      (work_item_transitioned k item.state to reason)
                      disc
                      actor
                      now
                      s)
          ])
            ≡ ok s'
          → Rests id s s'
      on none f h = absurd cc
      on (some item) f h = elim (Bool-cases (state_eq item.state to)) [
        | inl e ↦ Rests-same id s s' (ap (λ x. x.items) (sym (same_store (rw e at h))))
        | inr e ↦ elim (Bool-cases (can_transition item.state to)) [
          | inl c ↦
              moved_Rests k item.state to reason disc actor now s
                (λ other g.
                  ap (λ (w : WorkItem). terminal w.state) (same_item (sym f ∙ g))
                  ∙ not_terminal item.state to e c)
                (rw (e, c) at h)
          | inr c ↦ absurd (ground (arith, h, e, c))
        ]
      ]
        where
          same_store : {x y : ApprovalStore} → ◌≡◌ {A = Result ApprovalStore} (ok x) (ok y) → x ≡ y
          same_store h = ground arith

  awaited_Rests :
      (actor : Token) (item : WorkItem) (k : Uuid) (summary disc : String) (now : ℕ)
      (s : ApprovalStore) {s' : ApprovalStore}
      → ((other : WorkItem) → find_item k s.items ≡ some other → terminal other.state ≡ false)
      → await_approval event_id actor item k summary disc now s ≡ ok s'
      → Rests id s s'
  awaited_Rests actor item k summary disc now s {s'} open_item h =
      elim (Bool-cases (state_eq item.state WorkItemState.awaiting_approval)) [
        | inl e ↦ Rests-same id s s' (ground (arith, h, e))
        | inr e ↦
            moved_Rests k item.state WorkItemState.awaiting_approval _ disc actor now s open_item
              (rw e at h)
      ]

  -- The facts about an approval write no item.
  abbrev pub KeepsItems : Fact → Type 0
  KeepsItems fact =
      (actor : Token) (now : ℕ) (t t' : Rows)
      → apply_fact fact actor now t ≡ ok t'
      → t'.items ≡ t.items

  created_items :
      (k item : Uuid) (summary request : String) (expires_at : ℕ)
      → KeepsItems (approval_created k item summary request expires_at)
  unfolding apply_created
  created_items k item summary request expires_at actor now t t' h = ground arith

  decided_items :
      (k item : Uuid) (decision : Decision) (reason : String)
      → KeepsItems (approval_decided k item decision reason)
  unfolding apply_decided
  decided_items k item Decision.approved reason actor now t t' h = ground arith
  decided_items k item Decision.denied reason actor now t t' h = ground arith
  decided_items k item Decision.expired reason actor now t t' h = cc
  decided_items k item (Decision.unknown x) reason actor now t t' h = cc

  expired_items : (k item : Uuid) (reason : String) → KeepsItems (approval_expired k item reason)
  unfolding apply_expired
  expired_items k item reason actor now t t' h = ground arith

  appended_items :
      (fact : Fact) (disc : String) (actor : Token) (now : ℕ) (s : ApprovalStore)
      {answer : Uuid × Bool} {s' : ApprovalStore}
      → KeepsItems fact
      → append event_id fact disc actor now s ≡ ok (answer, s')
      → s'.items ≡ s.items
  appended_items fact disc actor now s {answer} {s'} keeps h =
      elim (append_rows event_id fact disc actor now s h) [
        | inl e ↦ ap (λ t. t.items) e
        | inr e ↦ keeps actor now s.rows s'.rows e
      ]

  -- A ruling, with the transition after it.
  ruled_Rests :
      (fact : Fact) (k item : Uuid) (actor : Token) (to : WorkItemState) (why disc : String)
      (now : ℕ) (s : ApprovalStore)
      → KeepsItems fact
      → Rests id s
          (answered k s (
            then_append
              (append event_id fact disc actor now s)
              (append_transition event_id actor item to why disc now))).1
  ruled_Rests fact k item actor to why disc now s keeps =
      answered_store event_id (Rests id s) k s
        (then_append (append event_id fact disc actor now s)
          (append_transition event_id actor item to why disc now))
        (Rests-same id s s refl)
        (λ answer s' h.
          let (s1, w, r) =
            then_append_parts event_id (append event_id fact disc actor now s)
              (append_transition event_id actor item to why disc now) h in
          Rests-then id s s1 s' (Rests-same id s s1 (appended_items fact disc actor now s keeps w))
            (append_transition-Rests actor item to why disc now s1 r))
