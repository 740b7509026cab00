-- ===== src/Approvals.antt =====
-- internal/approvals: service.go and projectors.go on the rows of approvals and work_items. The id of
-- an event (events.DeterministicID) is a parameter; Append of internal/events is its lookup of that
-- id and the projectors of this package, with that of work_item.transitioned. JSON is its text.
pub mod Service
pub mod Change
pub mod Calls
pub mod Signed
pub mod Items
pub mod Examples
use meristem.Base.{
  ℕ, ◌+◌, ◌*◌, ◌/◌, String, Bool, true, false, ◌&&◌, ◌||◌, not, Option, none, some, List, [], ◌∷◌,
  ◌++◌, str_eq, ◌==◌, if◌then◌else◌, any, trim_space, contains_id, concat,
}
use meristem.Base.Int.{ℤ, pos, negsuc}
use meristem.Domain.{
  Uuid, nil_uuid, Token, Source, WorkItem, WorkItemState, state_eq, terminal, can_transition,
}
use meristem.Store.{find_item}
use meristem.WorkItems.Projectors.{update_item, move_item}
use meristem.WorkItems.Escalation.{source_for_actor}

pub data Status : Type 0 where
  pending approved denied expired : Status

-- A request may hold any text.
pub data Decision : Type 0 where
  approved denied expired : Decision
  unknown : String → Decision

pub record Approval : Type 0 where
  pub id : Uuid
  pub work_item_id : Uuid
  pub status : Status
  pub summary : String
  pub request : String
  pub requested_by : Option Uuid
  pub requested_source : Source
  pub created_at : ℕ
  pub expires_at : ℕ
  pub decided_by : Option Uuid
  pub decision_source : Option Source
  pub decided_at : Option ℕ
  pub decision : Option Decision
  pub decision_reason : String
  pub updated_at : ℕ

-- What the four events say: the subject first, then the payload.
pub data Fact : Type 0 where
  approval_created : Uuid → Uuid → String → String → ℕ → Fact
  approval_decided : Uuid → Uuid → Decision → String → Fact
  approval_expired : Uuid → Uuid → String → Fact
  work_item_transitioned : Uuid → WorkItemState → WorkItemState → String → Fact

pub record Rows : Type 0 where
  pub approvals : List Approval
  pub items : List WorkItem

pub record ApprovalStore : Type 0 where
  pub log : List (Uuid × Fact)
  pub rows : Rows
  pub open rows use *
  -- The ids of the tokens table.
  pub tokens : List Uuid

pub data ApprovalError : Type 0 where
  not_found actor_required human_decision_token separation_of_duties : ApprovalError
  already_decided invalid_decision approval_id_required : ApprovalError
  invalid_request projector_failed constraint : String → ApprovalError
  invalid_transition : WorkItemState → WorkItemState → ApprovalError

pub data Result {ℓ} (A : Type ℓ) : Type ℓ where
  ok : A → Result A
  err : ApprovalError → Result A

unfoldable pub find_approval : Uuid → List Approval → Option Approval
find_approval id [] = none
find_approval id (r ∷ rs) = if r.id == id then some r else find_approval id rs

abbrev pub is_found {ℓ} : {A : Type ℓ} → Option A → Bool
is_found none = false
is_found (some _) = true

unfoldable pub update_approval : Uuid → (Approval → Approval) → List Approval → List Approval
update_approval id f [] = []
update_approval id f (r ∷ rs) = (if r.id == id then f r else r) ∷ update_approval id f rs

abbrev or_empty_object : String → String
or_empty_object body = if str_eq body "" || str_eq body "null" then "{}" else body

abbrev pub new_approval : Uuid → Uuid → String → String → ℕ → Token → ℕ → Approval
new_approval id work_item summary request expires_at actor now = record {
  id = id;
  work_item_id = work_item;
  status = Status.pending;
  summary = summary;
  request = or_empty_object request;
  requested_by = some actor.id;
  requested_source = source_for_actor actor;
  created_at = now;
  expires_at = expires_at;
  decided_by = none;
  decision_source = none;
  decided_at = none;
  decision = none;
  decision_reason = "";
  updated_at = now;
}

-- createdProjector.Apply: INSERT … ON CONFLICT (id) DO NOTHING, under the foreign key.
unfoldable pub apply_created : Uuid → Uuid → String → String → ℕ → Token → ℕ → Rows → Result Rows
apply_created id work_item summary request expires_at actor now t =
    if work_item == nil_uuid
    then err (projector_failed "approval.created: work_item_id is required")
    else if str_eq summary ""
    then err (projector_failed "approval.created: summary is required")
    else if is_found (find_approval id t.approvals)
    then ok t
    else if not (is_found (find_item work_item t.items))
    then err (constraint "approvals_work_item_id_fkey")
    else ok (record t {
      approvals =
          t.approvals ++ new_approval id work_item summary request expires_at actor now ∷ [];
    })

-- The UPDATE of the two other projectors.
abbrev pub rule : Status → Decision → String → Token → ℕ → Approval → Approval
rule status decision reason actor now r = record r {
  status = status;
  decided_by = some actor.id;
  decision_source = some (source_for_actor actor);
  decided_at = some now;
  decision = some decision;
  decision_reason = reason;
  updated_at = now;
}

-- decidedProjector.Apply
unfoldable pub apply_decided : Uuid → Decision → String → Token → ℕ → Rows → Result Rows
apply_decided id Decision.approved reason actor now t = ok (record t {
  approvals =
      update_approval id (rule Status.approved Decision.approved reason actor now) t.approvals;
})
apply_decided id Decision.denied reason actor now t = ok (record t {
  approvals = update_approval id (rule Status.denied Decision.denied reason actor now) t.approvals;
})
apply_decided id _ reason actor now t = err (projector_failed "approval.decided: invalid decision")

-- expiredProjector.Apply
unfoldable pub apply_expired : Uuid → String → Token → ℕ → Rows → Rows
apply_expired id reason actor now t = record t {
  approvals =
      update_approval id (rule Status.expired Decision.expired reason actor now) t.approvals;
}

-- The states that this package moves an item to are legal, so the projector accepts them.
abbrev pub apply_fact : Fact → Token → ℕ → Rows → Result Rows
apply_fact (approval_created id item summary request expires_at) actor now t =
    apply_created id item summary request expires_at actor now t
apply_fact (approval_decided id item decision reason) actor now t =
    apply_decided id decision reason actor now t
apply_fact (approval_expired id item reason) actor now t = ok (apply_expired id reason actor now t)
apply_fact (work_item_transitioned id from to reason) actor now t =
    ok (record t { items = update_item id (move_item from to reason now) t.items })

abbrev pub Written : Type 0
Written = Result ((Uuid × Bool) × ApprovalStore)

abbrev pub logged : Uuid → Fact → ApprovalStore → Result Rows → Written
logged id fact s (err e) = err e
logged id fact s (ok t) = ok ((id, true), record s { log = s.log ++ (id, fact) ∷ []; rows = t })

module _ (event_id : Fact → String → Uuid) where
  unfoldable pub append : Fact → String → Token → ℕ → ApprovalStore → Written
  append fact disc actor now s =
      let id = event_id fact disc in
      if any (λ entry. entry.0 == id) s.log
      then ok ((id, false), s)
      else if not (contains_id s.tokens actor.id)
      then err (constraint "events_actor_token_id_fkey")
      else logged id fact s (apply_fact fact actor now s.rows)
