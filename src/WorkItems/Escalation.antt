-- ===== src/WorkItems/Escalation.antt =====
-- requestXylemEscalationInTx of internal/workitems/service.go: the escalation that an exhausted
-- budget asks for.
use meristem.Base.{
  String, Bool, false, none, some, List, [], ◌∷◌, ◌==◌, str_eq, if◌then◌else◌, any, concat,
}
use meristem.Domain.{
  Uuid, Token, WorkItem, WorkItemState, HumanReviewStatus, Source, source_valid, state_eq,
}
use meristem.Events.{
  SubjectKind, Payload, Spec, Event, created, transitioned, relation_added, metadata_updated,
  escalation_requested,
}
use meristem.Store.{Tx, pure, gets, ◌>>=◌, ◌>>◌}
use meristem.WorkItems.{Env}
use meristem.WorkItems.Writer.{append}

-- sourceForActor
abbrev pub source_for_actor : Token → Source
source_for_actor actor = if source_valid actor.source then actor.source else Source.human

-- An event about `id` by `actor`.
abbrev pub spec_of : Token → SubjectKind → Uuid → Payload → String → Spec
spec_of actor kind id payload discriminator = record {
  identity = record {
    subject_kind = kind;
    subject_id = id;
    payload = payload;
    discriminator = discriminator;
  };
  source = source_for_actor actor;
  actor_token_id = some actor.id;
}

abbrev is_request_of : Uuid → Event → SubjectKind → Payload → Bool
is_request_of id e SubjectKind.escalation (escalation_requested _) = e.subject_id == id
is_request_of id e _ _ = false

unfoldable pub escalation_exists : Uuid → List Event → Bool
escalation_exists id = any (λ e. is_request_of id e e.subject_kind e.payload)

human_work_item_body : Env → WorkItem → String → String → String
human_work_item_body env parent reason summary = concat (
    "Escalation requested for work_item "
    ∷ env.uuid_text parent.id
    ∷ ".\n\nReason: "
    ∷ reason
    ∷ "\n\n"
    ∷ (if str_eq summary reason then "" else concat ("Summary: " ∷ summary ∷ "\n\n" ∷ []))
    ∷ "Respond by appending a human decision or by moving the original work_item out of blocked once resolved."
    ∷ [])

-- The payloads of the escalation, in the order of the appends.
unfoldable pub request_payload : Env → WorkItem → String → String → Payload
request_payload env parent reason summary =
    let id = env.escalation_id parent.id reason summary in
    escalation_requested (record {
      work_item_id = parent.id;
      human_work_item_id = env.human_work_item_id id;
      reason = reason;
      summary = summary;
      origin_state = parent.state;
      origin_state_reason = parent.state_reason;
    })

unfoldable pub human_item_payload : Env → WorkItem → String → String → Payload
unfolding human_work_item_body
human_item_payload env parent reason summary = created (record {
  title = concat ("Human attention: " ∷ parent.title ∷ []);
  body = human_work_item_body env parent reason summary;
  state = WorkItemState.captured;
  checks = "human_response_recorded" ∷ [];
  human_review_status = HumanReviewStatus.blocked;
  cultivar = none;
  patience_budget_seconds = none;
  escalation_rule = none;
})

abbrev pub review_blocked_payload : WorkItem → Payload
review_blocked_payload parent =
    metadata_updated
      (record { checks = parent.checks; human_review_status = parent.human_review_status })
      (record { checks = parent.checks; human_review_status = HumanReviewStatus.blocked })

abbrev pub blocked_payload : WorkItem → String → Payload
blocked_payload parent reason =
    transitioned parent.state WorkItemState.blocked
      (concat ("human escalation requested: " ∷ reason ∷ []))

-- None of these appends carries a discriminator.
unfoldable pub append_escalation : Env → WorkItem → String → String → Token → Tx Unit
append_escalation env parent reason summary actor = do
  let id = env.escalation_id parent.id reason summary
  let human_id = env.human_work_item_id id
  append env
      (spec_of actor SubjectKind.escalation id (request_payload env parent reason summary) "")
  append env (
      spec_of actor SubjectKind.work_item human_id (human_item_payload env parent reason summary)
        "")
  append env (spec_of actor SubjectKind.work_item parent.id (relation_added parent.id human_id) "")
  append env (spec_of actor SubjectKind.work_item parent.id (review_blocked_payload parent) "")
  if state_eq parent.state WorkItemState.blocked then pure tt else do
    append env (spec_of actor SubjectKind.work_item parent.id (blocked_payload parent reason) "")
    pure tt

unfoldable pub request_xylem_escalation : Env → WorkItem → String → String → Token → Tx Unit
unfolding append_escalation
request_xylem_escalation env parent reason summary actor = do
  exists ← gets (λ s. escalation_exists (env.escalation_id parent.id reason summary) s.events)
  if exists then pure tt else append_escalation env parent reason summary actor
