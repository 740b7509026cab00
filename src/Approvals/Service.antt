-- ===== src/Approvals/Service.antt =====
-- internal/approvals/service.go: Create, Decide and Expire.
use meristem.Base.{
  ℕ, ◌+◌, ◌/◌, String, Bool, true, false, ◌||◌, not, Option, none, some, [], ◌∷◌, str_eq, ◌==◌,
  if◌then◌else◌, trim_space, concat,
}
use meristem.Base.Int.{ℤ, pos, negsuc}
use meristem.Domain.{
  Uuid, nil_uuid, Token, Source, WorkItem, WorkItemState, state_eq, terminal, can_transition,
}
use meristem.Store.{find_item}
use meristem.Approvals.{
  Approval, Status, Decision, Fact, approval_created, approval_decided, approval_expired,
  work_item_transitioned, ApprovalStore, not_found, actor_required, human_decision_token,
  separation_of_duties, already_decided, invalid_decision, approval_id_required, invalid_request,
  invalid_transition, Result, ok, err, find_approval, Written, append,
}

pub record CreateInput : Type 0 where
  pub approval_id : Uuid
  pub work_item_id : Uuid
  pub summary : String
  -- `none` for nil.
  pub request : Option String
  pub expires_in : ℤ
  pub actor : Token

pub record DecisionInput : Type 0 where
  pub approval_id : Uuid
  pub decision : Decision
  pub reason : String
  pub actor : Token

pub record ExpireInput : Type 0 where
  pub approval_id : Uuid
  pub reason : String
  pub actor : Token

pub record Answer : Type 0 where
  pub approval : Approval
  pub fresh : Bool
  pub event_id : Uuid

abbrev pub is_requester : Option Uuid → Uuid → Bool
is_requester none id = false
is_requester (some r) id = r == id

abbrev pub is_pending : Status → Bool
is_pending Status.pending = true
is_pending _ = false

abbrev is_expired : Status → Bool
is_expired Status.expired = true
is_expired _ = false

-- Only the two that Decide accepts are compared.
abbrev pub same_decision : Decision → Decision → Bool
same_decision Decision.approved Decision.approved = true
same_decision Decision.denied Decision.denied = true
same_decision _ _ = false

abbrev pub recorded_as : Option Decision → Decision → Bool
recorded_as none d = false
recorded_as (some e) d = same_decision e d

abbrev pub decidable : Decision → Bool
decidable Decision.approved = true
decidable Decision.denied = true
decidable _ = false

abbrev pub is_human : Source → Bool
is_human Source.human = true
is_human _ = false

-- time.Hour where the duration is not positive, in nanoseconds.
abbrev pub or_hour : ℤ → ℕ
or_hour (pos n) = if n == 0 then 3_600_000_000_000 else n
or_hour (negsuc _) = 3_600_000_000_000

abbrev or_object : Option String → String
or_object none = "{}"
or_object (some body) = body

abbrev pub target_of : Decision → WorkItemState × String
target_of Decision.denied = (WorkItemState.failed, "approval_denied")
target_of _ = (WorkItemState.running, "approval_approved")

abbrev got : Option Approval → Uuid → Bool → Result Answer
got none id fresh = err not_found
got (some r) id fresh = ok (record { approval = r; fresh = fresh; event_id = id })

-- The end of each method: what an error wrote is lost, what was committed is read back.
abbrev pub answered : Uuid → ApprovalStore → Written → Result Answer × ApprovalStore
answered id s (err e) = (err e, s)
answered id s (ok ((event, fresh), s')) = (got (find_approval id s'.approvals) event fresh, s')

-- What is appended next, if anything; the answer is that of the first append.
abbrev pub then_append : Written → (ApprovalStore → Result ApprovalStore) → Written
then_append (err e) rest = err e
then_append (ok (answer, s)) rest = elim (rest s) [ ok s' ↦ ok (answer, s') | err e ↦ err e ]

abbrev pub only_store : Written → Result ApprovalStore
only_store (err e) = err e
only_store (ok (answer, s)) = ok s

abbrev pub chosen_id : CreateInput → Uuid → Uuid
chosen_id input new_id = if input.approval_id == nil_uuid then new_id else input.approval_id

abbrev pub or_expired : String → String
or_expired reason = if str_eq reason "" then "approval_expired" else reason

module _ (event_id : Fact → String → Uuid) where
  -- appendApprovalTransition
  unfoldable pub append_transition :
      Token → Uuid → WorkItemState → String → String → ℕ → ApprovalStore → Result ApprovalStore
  append_transition actor id to reason disc now s = elim (find_item id s.items) [
    | none ↦ err not_found
    | some item ↦
        if state_eq item.state to
        then ok s
        else if not (can_transition item.state to)
        then err (invalid_transition item.state to)
        else only_store
            (append event_id (work_item_transitioned id item.state to reason) disc actor now s)
  ]

  abbrev pub await_approval :
      Token → WorkItem → Uuid → String → String → ℕ → ApprovalStore → Result ApprovalStore
  await_approval actor item id summary disc now s =
      if state_eq item.state WorkItemState.awaiting_approval
      then ok s
      else only_store (
          append event_id
            (work_item_transitioned id item.state WorkItemState.awaiting_approval
              (concat ("approval requested: " ∷ summary ∷ [])))
            disc actor now s)

  abbrev pub create_for :
      CreateInput → Uuid → String → ℕ → String → ℕ → ApprovalStore → Option WorkItem → Written
  create_for input id summary expires_at disc now s none = err not_found
  create_for input id summary expires_at disc now s (some item) =
      if terminal item.state
      then err (invalid_request "cannot request approval for terminal work item")
      else then_append
          (append event_id
            (approval_created id input.work_item_id summary (or_object input.request) expires_at) ""
            input.actor now s)
          (await_approval input.actor item input.work_item_id summary disc now)

  -- CreateInTx. The clock counts nanoseconds, a time that is stored microseconds; `new_id` is the
  -- identifier that the request gives.
  unfoldable pub create_in_tx : CreateInput → Uuid → ℕ → String → ℕ → ApprovalStore → Written
  create_in_tx input id clock disc now s =
      let summary = trim_space input.summary in
      if input.actor.id == nil_uuid
      then err actor_required
      else if input.work_item_id == nil_uuid
      then err (invalid_request "work_item_id is required")
      else if str_eq summary ""
      then err (invalid_request "summary is required")
      else create_for input id summary ((clock + or_hour input.expires_in) / 1_000) disc now s
          (find_item input.work_item_id s.items)

  unfoldable pub create :
      CreateInput → Uuid → ℕ → String → ℕ → ApprovalStore → Result Answer × ApprovalStore
  create input new_id clock disc now s =
      let id = chosen_id input new_id in answered id s (create_in_tx input id clock disc now s)

  abbrev pub decide_row :
      DecisionInput → String → ℕ → ApprovalStore → Option Approval → Result Answer × ApprovalStore
  decide_row input disc now s none = (err not_found, s)
  decide_row input disc now s (some current) =
      if is_requester current.requested_by input.actor.id
      then (err separation_of_duties, s)
      else if not (is_pending current.status)
      then (if recorded_as current.decision input.decision
          then (ok (record { approval = current; fresh = false; event_id = nil_uuid }), s)
          else (err already_decided, s))
      else answered input.approval_id s (
          then_append
            (append event_id
              (approval_decided input.approval_id current.work_item_id input.decision
                (trim_space input.reason))
              disc input.actor now s)
            (append_transition input.actor current.work_item_id (target_of input.decision).0
              (target_of input.decision).1 disc now))

  unfoldable pub decide : DecisionInput → String → ℕ → ApprovalStore → Result Answer × ApprovalStore
  decide input disc now s =
      if input.actor.id == nil_uuid
      then (err actor_required, s)
      else if input.actor.is_root || not (is_human input.actor.source)
      then (err human_decision_token, s)
      else if input.approval_id == nil_uuid
      then (err approval_id_required, s)
      else if not (decidable input.decision)
      then (err invalid_decision, s)
      else decide_row input disc now s (find_approval input.approval_id s.approvals)

  abbrev pub expire_row :
      ExpireInput → String → ℕ → ApprovalStore → Option Approval → Result Answer × ApprovalStore
  expire_row input disc now s none = (err not_found, s)
  expire_row input disc now s (some current) =
      if not (is_pending current.status)
      then (if is_expired current.status
          then (ok (record { approval = current; fresh = false; event_id = nil_uuid }), s)
          else (err already_decided, s))
      else answered input.approval_id s (
          then_append
            (append event_id
              (approval_expired input.approval_id current.work_item_id
                (or_expired (trim_space input.reason)))
              disc input.actor now s)
            (append_transition input.actor current.work_item_id WorkItemState.blocked
              "approval_expired" disc now))

  unfoldable pub expire : ExpireInput → String → ℕ → ApprovalStore → Result Answer × ApprovalStore
  expire input disc now s =
      if input.actor.id == nil_uuid
      then (err actor_required, s)
      else if input.approval_id == nil_uuid
      then (err approval_id_required, s)
      else expire_row input disc now s (find_approval input.approval_id s.approvals)
