-- ===== src/Domain/Kinds.antt =====
-- The event kinds of internal/domain/models.go.
use meristem.Base.{ℕ, String, Bool, List, [], ◌∷◌, str_eq, ◌==◌}

pub data EventKind : Type 0 where
  token_created : EventKind
  token_revoked : EventKind
  idempotency_recorded : EventKind
  message_captured : EventKind
  work_item_created : EventKind
  work_item_transitioned : EventKind
  work_item_event_appended : EventKind
  work_item_relation_added : EventKind
  work_item_metadata_updated : EventKind
  xylem_exhausted : EventKind
  signal_received : EventKind
  deterministic_error_reported : EventKind
  deterministic_error_masked : EventKind
  deterministic_error_unmasked : EventKind
  escalation_requested : EventKind
  subactor_grant_requested : EventKind
  subactor_grant_granted : EventKind
  subactor_grant_denied : EventKind
  subactor_grant_escalated : EventKind
  cultivar_activation_requested : EventKind
  cultivar_activation_granted : EventKind
  cultivar_activation_denied : EventKind
  cultivar_activation_escalated : EventKind
  approval_created : EventKind
  approval_decided : EventKind
  approval_expired : EventKind
  http_connector_action_requested : EventKind
  http_connector_action_approved : EventKind
  http_connector_action_sent : EventKind
  patience_breached : EventKind
  convergence_verdict_recorded : EventKind
  convergence_checks_proposed : EventKind
  dispatch_requested : EventKind
  policy_profile_switched : EventKind
  tropism_defined : EventKind
  cultivar_defined : EventKind
  projection_defined : EventKind
  node_registered : EventKind
  node_route_updated : EventKind
  command_queued : EventKind
  command_acked : EventKind
  unknown : String → EventKind

unfoldable pub all_event_kinds : List EventKind
all_event_kinds =
    EventKind.token_created ∷ EventKind.token_revoked ∷ EventKind.idempotency_recorded
    ∷ EventKind.message_captured ∷ EventKind.work_item_created ∷ EventKind.work_item_transitioned
    ∷ EventKind.work_item_event_appended ∷ EventKind.work_item_relation_added
    ∷ EventKind.work_item_metadata_updated ∷ EventKind.xylem_exhausted ∷ EventKind.signal_received
    ∷ EventKind.deterministic_error_reported ∷ EventKind.deterministic_error_masked
    ∷ EventKind.deterministic_error_unmasked ∷ EventKind.escalation_requested
    ∷ EventKind.subactor_grant_requested ∷ EventKind.subactor_grant_granted
    ∷ EventKind.subactor_grant_denied ∷ EventKind.subactor_grant_escalated
    ∷ EventKind.cultivar_activation_requested ∷ EventKind.cultivar_activation_granted
    ∷ EventKind.cultivar_activation_denied ∷ EventKind.cultivar_activation_escalated
    ∷ EventKind.approval_created ∷ EventKind.approval_decided ∷ EventKind.approval_expired
    ∷ EventKind.http_connector_action_requested ∷ EventKind.http_connector_action_approved
    ∷ EventKind.http_connector_action_sent ∷ EventKind.patience_breached
    ∷ EventKind.convergence_verdict_recorded ∷ EventKind.convergence_checks_proposed
    ∷ EventKind.dispatch_requested ∷ EventKind.policy_profile_switched ∷ EventKind.tropism_defined
    ∷ EventKind.cultivar_defined ∷ EventKind.projection_defined ∷ EventKind.node_registered
    ∷ EventKind.node_route_updated ∷ EventKind.command_queued ∷ EventKind.command_acked ∷ []

-- The place of a kind in the declarations. It tells the named kinds apart.
abbrev pub ordinal : EventKind → ℕ
ordinal EventKind.token_created = 0
ordinal EventKind.token_revoked = 1
ordinal EventKind.idempotency_recorded = 2
ordinal EventKind.message_captured = 3
ordinal EventKind.work_item_created = 4
ordinal EventKind.work_item_transitioned = 5
ordinal EventKind.work_item_event_appended = 6
ordinal EventKind.work_item_relation_added = 7
ordinal EventKind.work_item_metadata_updated = 8
ordinal EventKind.xylem_exhausted = 9
ordinal EventKind.signal_received = 10
ordinal EventKind.deterministic_error_reported = 11
ordinal EventKind.deterministic_error_masked = 12
ordinal EventKind.deterministic_error_unmasked = 13
ordinal EventKind.escalation_requested = 14
ordinal EventKind.subactor_grant_requested = 15
ordinal EventKind.subactor_grant_granted = 16
ordinal EventKind.subactor_grant_denied = 17
ordinal EventKind.subactor_grant_escalated = 18
ordinal EventKind.cultivar_activation_requested = 19
ordinal EventKind.cultivar_activation_granted = 20
ordinal EventKind.cultivar_activation_denied = 21
ordinal EventKind.cultivar_activation_escalated = 22
ordinal EventKind.approval_created = 23
ordinal EventKind.approval_decided = 24
ordinal EventKind.approval_expired = 25
ordinal EventKind.http_connector_action_requested = 26
ordinal EventKind.http_connector_action_approved = 27
ordinal EventKind.http_connector_action_sent = 28
ordinal EventKind.patience_breached = 29
ordinal EventKind.convergence_verdict_recorded = 30
ordinal EventKind.convergence_checks_proposed = 31
ordinal EventKind.dispatch_requested = 32
ordinal EventKind.policy_profile_switched = 33
ordinal EventKind.tropism_defined = 34
ordinal EventKind.cultivar_defined = 35
ordinal EventKind.projection_defined = 36
ordinal EventKind.node_registered = 37
ordinal EventKind.node_route_updated = 38
ordinal EventKind.command_queued = 39
ordinal EventKind.command_acked = 40
ordinal (EventKind.unknown _) = 41

-- `==` on kinds, which are strings in the program.
unfoldable pub event_kind_eq : EventKind → EventKind → Bool
event_kind_eq (EventKind.unknown s) (EventKind.unknown t) = str_eq s t
event_kind_eq a b = ordinal a == ordinal b
