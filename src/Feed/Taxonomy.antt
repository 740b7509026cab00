-- ===== src/Feed/Taxonomy.antt =====
-- internal/feed/taxonomy.go: the classes of event kinds.
use meristem.Base.{
  String, Bool, true, false, Option, none, some, str_eq, if◌then◌else◌, has_prefix, trim_space,
  strip_prefix?,
}
use meristem.Domain.{EventKind}
use meristem.Events.{Payload, event_appended, kind_of}

pub data KindClass : Type 0 where
  lifecycle decision progress admin : KindClass
  unknown : String → KindClass

-- What StaticKindClass returns: `dynamic` where the payload decides.
pub data StaticClass : Type 0 where
  fixed : KindClass → StaticClass
  dynamic : StaticClass

unfoldable pub static_kind_class : EventKind → Option StaticClass
static_kind_class EventKind.work_item_created = some (fixed KindClass.lifecycle)
static_kind_class EventKind.work_item_transitioned = some (fixed KindClass.lifecycle)
static_kind_class EventKind.work_item_relation_added = some (fixed KindClass.lifecycle)
static_kind_class EventKind.work_item_metadata_updated = some (fixed KindClass.lifecycle)
static_kind_class EventKind.xylem_exhausted = some (fixed KindClass.lifecycle)
static_kind_class EventKind.signal_received = some (fixed KindClass.lifecycle)
static_kind_class EventKind.escalation_requested = some (fixed KindClass.lifecycle)
static_kind_class EventKind.approval_created = some (fixed KindClass.lifecycle)
static_kind_class EventKind.approval_expired = some (fixed KindClass.lifecycle)
static_kind_class EventKind.http_connector_action_requested = some (fixed KindClass.lifecycle)
static_kind_class EventKind.http_connector_action_approved = some (fixed KindClass.lifecycle)
static_kind_class EventKind.patience_breached = some (fixed KindClass.lifecycle)
static_kind_class EventKind.dispatch_requested = some (fixed KindClass.lifecycle)
static_kind_class EventKind.work_item_event_appended = some dynamic
static_kind_class EventKind.message_captured = some (fixed KindClass.decision)
static_kind_class EventKind.subactor_grant_requested = some (fixed KindClass.decision)
static_kind_class EventKind.subactor_grant_granted = some (fixed KindClass.decision)
static_kind_class EventKind.subactor_grant_denied = some (fixed KindClass.decision)
static_kind_class EventKind.subactor_grant_escalated = some (fixed KindClass.decision)
static_kind_class EventKind.cultivar_activation_requested = some (fixed KindClass.decision)
static_kind_class EventKind.cultivar_activation_granted = some (fixed KindClass.decision)
static_kind_class EventKind.cultivar_activation_denied = some (fixed KindClass.decision)
static_kind_class EventKind.cultivar_activation_escalated = some (fixed KindClass.decision)
static_kind_class EventKind.approval_decided = some (fixed KindClass.decision)
static_kind_class EventKind.convergence_verdict_recorded = some (fixed KindClass.decision)
static_kind_class EventKind.convergence_checks_proposed = some (fixed KindClass.decision)
static_kind_class EventKind.policy_profile_switched = some (fixed KindClass.decision)
static_kind_class EventKind.tropism_defined = some (fixed KindClass.decision)
static_kind_class EventKind.cultivar_defined = some (fixed KindClass.decision)
static_kind_class EventKind.projection_defined = some (fixed KindClass.decision)
static_kind_class EventKind.http_connector_action_sent = some (fixed KindClass.progress)
static_kind_class EventKind.token_created = some (fixed KindClass.admin)
static_kind_class EventKind.token_revoked = some (fixed KindClass.admin)
static_kind_class EventKind.idempotency_recorded = some (fixed KindClass.admin)
static_kind_class EventKind.deterministic_error_reported = some (fixed KindClass.admin)
static_kind_class EventKind.deterministic_error_masked = some (fixed KindClass.admin)
static_kind_class EventKind.deterministic_error_unmasked = some (fixed KindClass.admin)
static_kind_class EventKind.node_registered = some (fixed KindClass.admin)
static_kind_class EventKind.node_route_updated = some (fixed KindClass.admin)
static_kind_class EventKind.command_queued = some (fixed KindClass.admin)
static_kind_class EventKind.command_acked = some (fixed KindClass.admin)
static_kind_class (EventKind.unknown _) = none

-- The trimmed inner_kind of a payload, or its trimmed kind where that is blank. Only
-- work_item.event_appended is asked, whose payload has an inner_kind and no kind.
abbrev inner_kind : Payload → String
inner_kind (event_appended kind _) = trim_space kind
inner_kind _ = ""

-- ClassifyEvent, and ClassifyItem on a row of the log.
unfoldable pub classify : Payload → Option KindClass
unfolding static_kind_class kind_of strip_prefix?
classify p = elim (static_kind_class (kind_of p)) [
  | none ↦ none
  | some (fixed class) ↦ some class
  | some dynamic ↦
      some (
        if has_prefix (inner_kind p) "coordination."
        then KindClass.decision
        else KindClass.progress)
]

abbrev pub class_eq : KindClass → KindClass → Bool
class_eq KindClass.lifecycle KindClass.lifecycle = true
class_eq KindClass.decision KindClass.decision = true
class_eq KindClass.progress KindClass.progress = true
class_eq KindClass.admin KindClass.admin = true
class_eq (KindClass.unknown s) (KindClass.unknown t) = str_eq s t
class_eq _ _ = false
