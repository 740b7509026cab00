-- ===== src/Approvals/Change.antt =====
-- What a call of internal/approvals does to the row of an approval.
use meristem.Base.{
  ℕ, String, Bool, true, false, ◌&&◌, not, Option, none, some, List, [], ◌∷◌, ◌++◌, ◌≡◌, ◌⊎◌, inl,
  inr, refl, sym, ◌∙◌, ap, subst, arith, ◌==◌, ==_iff, if◌then◌else◌, any, contains_id, Bool-cases,
}
use meristem.Domain.{Uuid, Token, WorkItem, WorkItemState, can_transition, state_eq}
use meristem.Store.{find_item}
use meristem.Approvals.{
  Approval, Status, Decision, Fact, work_item_transitioned, Rows, ApprovalStore, Result, ok, err,
  find_approval, update_approval, rule, apply_fact, Written, logged, append, not_found,
  invalid_transition,
}
use meristem.Approvals.Service.{
  CreateInput, DecisionInput, ExpireInput, is_requester, is_pending, recorded_as, is_human,
  answered, then_append, only_store, append_transition, create, decide, expire,
}

-- A call with what its request gives, and its time.
pub data Call : Type 0 where
  creating : CreateInput → Uuid → ℕ → String → ℕ → Call
  deciding : DecisionInput → String → ℕ → Call
  expiring : ExpireInput → String → ℕ → Call

module _ (event_id : Fact → String → Uuid) where
  abbrev pub call : Call → ApprovalStore → ApprovalStore
  call (creating input id clock disc now) s = (create event_id input id clock disc now s).1
  call (deciding input disc now) s = (decide event_id input disc now s).1
  call (expiring input disc now) s = (expire event_id input disc now s).1

  unfoldable pub calls : List Call → ApprovalStore → ApprovalStore
  calls [] s = s
  calls (c ∷ cs) s = calls cs (call c s)

abbrev pub is_ruled : Status → Bool
is_ruled Status.approved = true
is_ruled Status.denied = true
is_ruled _ = false

-- The call is the decision on record, by a human who is not root and did not ask for it.
abbrev pub signs : Approval → Call → Bool
signs r (deciding input disc now) =
    input.approval_id == r.id
    && recorded_as r.decision input.decision
    && is_requester r.decided_by input.actor.id
    && is_human input.actor.source
    && not input.actor.is_root
    && not (is_requester r.requested_by input.actor.id)
signs r _ = false

-- A row stays, or it is added as pending, or it was pending and is ruled on.
pub data Change (c : Call) (o o' : Option Approval) : Type 0 where
  same : o' ≡ o → Change c o o'
  added : (r : Approval) → o ≡ none → o' ≡ some r → r.status ≡ Status.pending → Change c o o'
  ruled :
      (r r' : Approval)
      → o ≡ some r
      → is_pending r.status ≡ true
      → o' ≡ some r'
      → (is_ruled r'.status ≡ true → signs r' c ≡ true)
      → Change c o o'

abbrev pub map_found : (Approval → Approval) → Option Approval → Option Approval
map_found f none = none
map_found f (some r) = some (f r)

abbrev pub or_row : Option Approval → Option Approval → Option Approval
or_row none o = o
or_row (some r) o = some r

pub find_approval-rule :
    (id k : Uuid) (status : Status) (decision : Decision) (reason : String) (actor : Token)
    (now : ℕ) (xs : List Approval)
    → find_approval id (update_approval k (rule status decision reason actor now) xs) ≡ (
        if k == id
        then map_found (rule status decision reason actor now) (find_approval id xs)
        else find_approval id xs)
unfolding find_approval update_approval
find_approval-rule id k status decision reason actor now [] = ground arith
find_approval-rule id k status decision reason actor now (x ∷ xs) = elim (Bool-cases (x.id == k)) [
  | inl e ↦ elim (Bool-cases (k == id)) [
    | inl f ↦
        let g : (x.id == id) ≡ true =
          (==_iff x.id id).1 ((==_iff x.id k).0 e ∙ (==_iff k id).0 f) in
        rw (e, f, g) refl
    | inr f ↦
        let g : (x.id == id) ≡ false =
          subst (λ i. (i == id) ≡ false) (sym ((==_iff x.id k).0 e)) f in
        rw (e, f, g) (find_approval-rule id k status decision reason actor now xs ∙ rw f)
  ]
  | inr e ↦ elim (Bool-cases (x.id == id)) [
    | inl g ↦ let f : (k == id) ≡ false = ground (arith, e, g) in rw (e, f, g) refl
    | inr g ↦ rw (e, g) (find_approval-rule id k status decision reason actor now xs)
  ]
]

pub find_approval-append :
    (id : Uuid) (xs : List Approval) (r : Approval)
    → find_approval id (xs ++ r ∷ [])
      ≡ or_row (find_approval id xs) (if r.id == id then some r else none)
unfolding find_approval
find_approval-append id [] r = refl
find_approval-append id (x ∷ xs) r = ground (arith, find_approval-append id xs r)

pub found_id :
    (id : Uuid) (xs : List Approval) {r : Approval}
    → find_approval id xs ≡ some r
    → (r.id == id) ≡ true
unfolding find_approval
found_id id [] h = cc
found_id id (x ∷ xs) h = elim (Bool-cases (x.id == id)) [
  | inl e ↦ ground (arith, h, e)
  | inr e ↦ found_id id xs (rw e at h)
]

logged_rows :
    (id : Uuid) (fact : Fact) (s : ApprovalStore) (o : Result Rows) {answer : Uuid × Bool}
    {s' : ApprovalStore}
    → logged id fact s o ≡ ok (answer, s')
    → o ≡ ok s'.rows
logged_rows id fact s (err e) h = cc
logged_rows id fact s (ok t) h = ground arith

module _ (event_id : Fact → String → Uuid) where
  -- An append leaves the rows, or its projector has written them.
  pub append_rows :
      (fact : Fact) (disc : String) (actor : Token) (now : ℕ) (s : ApprovalStore)
      {answer : Uuid × Bool} {s' : ApprovalStore}
      → append event_id fact disc actor now s ≡ ok (answer, s')
      → (s'.rows ≡ s.rows) ⊎ (apply_fact fact actor now s.rows ≡ ok s'.rows)
  unfolding append
  append_rows fact disc actor now s h =
      elim (Bool-cases (any (λ entry. entry.0 == event_id fact disc) s.log)) [
        | inl e ↦ inl (ground (arith, h, e))
        | inr e ↦ elim (Bool-cases (contains_id s.tokens actor.id)) [
          | inl t ↦ inr (logged_rows (event_id fact disc) fact s _ (rw (e, t) at h))
          | inr t ↦ absurd (ground (arith, h, e, t))
        ]
      ]

  pub then_append_parts :
      (w : Written) (rest : ApprovalStore → Result ApprovalStore) {answer : Uuid × Bool}
      {s' : ApprovalStore}
      → then_append w rest ≡ ok (answer, s')
      → (s1 : ApprovalStore) × (w ≡ ok (answer, s1)) × (rest s1 ≡ ok s')
  then_append_parts (err e) rest h = absurd cc
  then_append_parts (ok (a, s1)) rest {answer} {s'} h = parts (rest s1) refl h
    where
      parts :
          (o : Result ApprovalStore)
          → rest s1 ≡ o
          → (elim o as (λ _. Written) [ ok s' ↦ ok (a, s') | err e ↦ err e ]) ≡ ok (answer, s')
          → (s2 : ApprovalStore) × (◌≡◌ {A = Written} (ok (a, s1)) (ok (answer, s2)))
            × (rest s2 ≡ ok s')
      parts (err e) q k = absurd cc
      parts (ok s2) q k = (s1, ground (arith, k), q ∙ ground (arith, k))

  pub only_store_parts :
      (w : Written) {s' : ApprovalStore}
      → only_store w ≡ ok s'
      → (answer : Uuid × Bool) × (w ≡ ok (answer, s'))
  only_store_parts (err e) h = absurd cc
  only_store_parts (ok (a, s1)) h = (a, ap (λ x. x) (ground (arith, h)))

  -- A transition writes no approval.
  pub transition_approvals :
      (id : Uuid) (from to : WorkItemState) (reason disc : String) (actor : Token) (now : ℕ)
      (s : ApprovalStore) {s' : ApprovalStore}
      → only_store (append event_id (work_item_transitioned id from to reason) disc actor now s)
        ≡ ok s'
      → s'.approvals ≡ s.approvals
  transition_approvals id from to reason disc actor now s h =
      let (answer, k) = only_store_parts _ h in
      elim (append_rows (work_item_transitioned id from to reason) disc actor now s k) [
        | inl e ↦ ap (λ t. t.approvals) e
        | inr e ↦ ground (arith, e)
      ]

  pub append_transition_approvals :
      (actor : Token) (id : Uuid) (to : WorkItemState) (reason disc : String) (now : ℕ)
      (s : ApprovalStore) {s' : ApprovalStore}
      → append_transition event_id actor id to reason disc now s ≡ ok s'
      → s'.approvals ≡ s.approvals
  unfolding append_transition
  append_transition_approvals actor id to reason disc now s {s'} h = on (find_item id s.items) h
    where
      on :
          (o : Option WorkItem)
          → (elim o as (λ _. Result ApprovalStore) [
            | none ↦ err not_found
            | some item ↦
                if state_eq item.state to
                then ok s
                else if not (can_transition item.state to)
                then err (invalid_transition item.state to)
                else only_store (
                    append event_id
                      (work_item_transitioned id item.state to reason)
                      disc
                      actor
                      now
                      s)
          ])
            ≡ ok s'
          → s'.approvals ≡ s.approvals
      on none h = absurd cc
      on (some item) h = elim (Bool-cases (state_eq item.state to)) [
        | inl e ↦ ap (λ x. x.approvals) (sym (same_store (rw e at h)))
        | inr e ↦ elim (Bool-cases (can_transition item.state to)) [
          | inl k ↦ transition_approvals id item.state to reason disc actor now s (rw (e, k) at h)
          | inr k ↦ absurd (ground (arith, h, e, k))
        ]
      ]
        where
          same_store : {x y : ApprovalStore} → ◌≡◌ {A = Result ApprovalStore} (ok x) (ok y) → x ≡ y
          same_store h = ground arith

  -- What the call leaves: the store before it on an error.
  pub answered_store :
      (P : ApprovalStore → Type 0) (id : Uuid) (s : ApprovalStore) (w : Written)
      → P s
      → ((answer : Uuid × Bool) (s' : ApprovalStore) → w ≡ ok (answer, s') → P s')
      → P (answered id s w).1
  answered_store P id s (err e) p f = p
  answered_store P id s (ok ((event, fresh), s')) p f = f (event, fresh) s' refl
