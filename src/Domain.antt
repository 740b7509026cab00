-- ===== src/Domain.antt =====
-- The pure types of internal/domain: states, verdicts, review statuses, sources and tokens. A Go
-- string type with named values is a data type with those values and `unknown` for any other text.
mod Kinds
pub mod Lifecycle
pub mod QualifiedRef
pub mod Examples
pub use Kinds.{EventKind}
unfoldable pub use Kinds.{all_event_kinds, event_kind_eq}
use meristem.Base.{ℕ, String, Bool, true, false, Option, List, ◌&&◌, str_eq, if◌then◌else◌, not}

-- uuid.UUID: its 128 bits as a number. uuid.Nil is 0.
abbrev pub Uuid : Type 0
Uuid = ℕ

abbrev pub nil_uuid : Uuid
nil_uuid = 0

pub data Source : Type 0 where
  human agent system : Source
  unknown : String → Source

abbrev pub source_valid : Source → Bool
source_valid (Source.unknown _) = false
source_valid _ = true

pub data Disposition : Type 0 where
  accept reject escalate : Disposition
  unknown : String → Disposition

abbrev pub disposition_valid : Disposition → Bool
disposition_valid (Disposition.unknown _) = false
disposition_valid _ = true

pub data WorkItemState : Type 0 where
  captured triaged planned awaiting_approval running blocked done failed canceled : WorkItemState
  unknown : String → WorkItemState

abbrev pub state_valid : WorkItemState → Bool
state_valid (WorkItemState.unknown _) = false
state_valid _ = true

abbrev pub terminal : WorkItemState → Bool
terminal WorkItemState.done = true
terminal WorkItemState.failed = true
terminal WorkItemState.canceled = true
terminal _ = false

-- `==` on the string type.
abbrev pub state_eq : WorkItemState → WorkItemState → Bool
state_eq WorkItemState.captured WorkItemState.captured = true
state_eq WorkItemState.triaged WorkItemState.triaged = true
state_eq WorkItemState.planned WorkItemState.planned = true
state_eq WorkItemState.awaiting_approval WorkItemState.awaiting_approval = true
state_eq WorkItemState.running WorkItemState.running = true
state_eq WorkItemState.blocked WorkItemState.blocked = true
state_eq WorkItemState.done WorkItemState.done = true
state_eq WorkItemState.failed WorkItemState.failed = true
state_eq WorkItemState.canceled WorkItemState.canceled = true
state_eq (WorkItemState.unknown s) (WorkItemState.unknown t) = str_eq s t
state_eq _ _ = false

unfoldable pub can_transition : WorkItemState → WorkItemState → Bool
can_transition from to =
    if not (state_valid from && state_valid to)
    then false
    else if state_eq from to
    then true
    else if terminal from
    then false
    else true

pub data HumanReviewStatus : Type 0 where
  blocked waved_through approved : HumanReviewStatus
  unknown : String → HumanReviewStatus

abbrev pub review_valid : HumanReviewStatus → Bool
review_valid (HumanReviewStatus.unknown _) = false
review_valid _ = true

pub data EscalationRule : Type 0 where
  hand_to_human : EscalationRule
  unknown : String → EscalationRule

abbrev pub rule_valid : EscalationRule → Bool
rule_valid (EscalationRule.unknown _) = false
rule_valid _ = true

pub record Token : Type 0 where
  pub id : Uuid
  pub name : String
  pub is_root : Bool
  pub scopes : List String
  pub source : Source
  pub revoked_at : Option ℕ

pub record WorkItem : Type 0 where
  pub id : Uuid
  pub title : String
  pub body : String
  pub state : WorkItemState
  pub state_reason : Option String
  pub checks : List String
  pub human_review_status : HumanReviewStatus
  pub created_by : Option Uuid
  pub created_at : ℕ
  pub state_entered_at : ℕ
  pub updated_at : ℕ
