-- ===== src/Events.antt =====
-- The events of internal/events and internal/domain/event.go, with the payloads that
-- internal/workitems writes.
use meristem.Base.{ℕ, String, Option, List}
use meristem.Domain.{Uuid, Source, WorkItemState, HumanReviewStatus, EscalationRule, EventKind}

pub data SubjectKind : Type 0 where
  work_item escalation : SubjectKind
  other : String → SubjectKind

-- The payload of work_item.created. A key that the map lacks is `none`.
pub record Created : Type 0 where
  pub title : String
  pub body : String
  pub state : WorkItemState
  pub checks : List String
  pub human_review_status : HumanReviewStatus
  pub cultivar : Option String
  pub patience_budget_seconds : Option ℕ
  pub escalation_rule : Option EscalationRule

pub record Metadata : Type 0 where
  pub checks : List String
  pub human_review_status : HumanReviewStatus

-- The keys that the three payloads of xylem.exhausted share.
pub record Exhausted : Type 0 where
  pub current : ℕ
  pub max : ℕ
  pub budget_source : String
  pub cultivar : String
  pub escalation_rule : EscalationRule
  pub item_state : WorkItemState

pub data Exhaustion : Type 0 where
  -- attempted_child_id and attempted_child_title
  children : Exhausted → Uuid → String → Exhaustion
  -- actor_token_id
  running : Exhausted → Uuid → Exhaustion
  -- taxonomy_class, attempted_event_id, attempted_event_kind, attempted_inner_kind, actor_token_id
  events : Exhausted → String → Uuid → EventKind → String → Uuid → Exhaustion

pub record EscalationRequest : Type 0 where
  pub work_item_id : Uuid
  pub human_work_item_id : Uuid
  pub reason : String
  pub summary : String
  pub origin_state : WorkItemState
  pub origin_state_reason : Option String

-- A payload with its event's kind: each writer gives a kind its own payload.
pub data Payload : Type 0 where
  created : Created → Payload
  -- from, to and reason
  transitioned : WorkItemState → WorkItemState → String → Payload
  -- inner_kind, and the inner payload as encoded
  event_appended : String → String → Payload
  -- parent_id and child_id
  relation_added : Uuid → Uuid → Payload
  -- from and to
  metadata_updated : Metadata → Metadata → Payload
  xylem_exhausted : Exhaustion → Payload
  escalation_requested : EscalationRequest → Payload
  checks_proposed : String → Payload
  -- An event of another package: its kind and its payload as encoded.
  other : EventKind → String → Payload

unfoldable pub kind_of : Payload → EventKind
kind_of (created _) = EventKind.work_item_created
kind_of (transitioned _ _ _) = EventKind.work_item_transitioned
kind_of (event_appended _ _) = EventKind.work_item_event_appended
kind_of (relation_added _ _) = EventKind.work_item_relation_added
kind_of (metadata_updated _ _) = EventKind.work_item_metadata_updated
kind_of (xylem_exhausted _) = EventKind.xylem_exhausted
kind_of (escalation_requested _) = EventKind.escalation_requested
kind_of (checks_proposed _) = EventKind.convergence_checks_proposed
kind_of (Payload.other k _) = k

-- What an event's id is derived from.
pub record Identity : Type 0 where
  pub subject_kind : SubjectKind
  pub subject_id : Uuid
  pub payload : Payload
  pub discriminator : String

pub record Spec : Type 0 where
  pub identity : Identity
  pub open identity use *
  pub source : Source
  pub actor_token_id : Option Uuid

pub record Event : Type 0 where
  pub id : Uuid
  pub occurred_at : ℕ
  pub actor_token_id : Option Uuid
  pub source : Source
  pub subject_kind : SubjectKind
  pub subject_id : Uuid
  pub payload : Payload
