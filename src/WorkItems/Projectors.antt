-- ===== src/WorkItems/Projectors.antt =====
-- internal/workitems/projectors.go: the rows that each event writes, and what the schema refuses.
pub mod Rows
use meristem.Base.{
  ℕ, String, Bool, true, false, ◌&&◌, ◌||◌, not, Option, none, some, List, [], ◌∷◌, ◌++◌, map, ◌==◌,
  str_eq, if◌then◌else◌, any, trim_space,
}
use meristem.Domain.{
  Uuid, nil_uuid, WorkItem, WorkItemState, HumanReviewStatus, state_valid, review_valid, state_eq,
}
use meristem.Events.{
  SubjectKind, Created, Metadata, Payload, Event, created, transitioned, event_appended,
  relation_added, metadata_updated, checks_proposed,
}
use meristem.Store.{
  Error, Result, Tables, ok, err, invalid_request, projector_failed, constraint, find_item,
}

-- normalizeSuggestedConvergenceChecks
unfoldable pub normalize_checks : List String → Result (List String)
normalize_checks [] = ok []
normalize_checks (c ∷ cs) =
    let trimmed = trim_space c in
    if str_eq trimmed ""
    then err (invalid_request "suggested_convergence_checks is blank")
    else elim (normalize_checks cs) [ ok out ↦ ok (trimmed ∷ out) | err e ↦ err e ]

-- normalizeHumanReviewStatus
unfoldable pub normalize_review : HumanReviewStatus → Result HumanReviewStatus
normalize_review (HumanReviewStatus.unknown s) =
    if str_eq s ""
    then ok HumanReviewStatus.waved_through
    else err (invalid_request "invalid human_review_status")
normalize_review s = ok s

-- An empty state is captured.
abbrev pub default_state : WorkItemState → WorkItemState
default_state (WorkItemState.unknown s) =
    if str_eq s "" then WorkItemState.captured else WorkItemState.unknown s
default_state s = s

abbrev pub is_empty_state : WorkItemState → Bool
is_empty_state (WorkItemState.unknown s) = str_eq s ""
is_empty_state _ = false

-- Rows with the id are changed, the others kept.
unfoldable pub update_item : Uuid → (WorkItem → WorkItem) → List WorkItem → List WorkItem
update_item id f [] = []
update_item id f (w ∷ ws) = (if w.id == id then f w else w) ∷ update_item id f ws

infixl 5 ◌>>=◌
abbrev pub ◌>>=◌ : {A B : Type 0} → Result A → (A → Result B) → Result B
ok a >>= f = f a
err e >>= f = err e

new_item : Event → Created → WorkItemState → List String → HumanReviewStatus → WorkItem
new_item e p state checks review = record {
  id = e.subject_id;
  title = p.title;
  body = p.body;
  state = state;
  state_reason = none;
  checks = checks;
  human_review_status = review;
  created_by = e.actor_token_id;
  created_at = e.occurred_at;
  state_entered_at = e.occurred_at;
  updated_at = e.occurred_at;
}

-- INSERT … ON CONFLICT (id) DO NOTHING, under the CHECK on the state.
insert_item : WorkItem → Tables → Result Tables
insert_item w t =
    if not (state_valid w.state)
    then err (constraint "work_items_state_check")
    else elim (find_item w.id t.items) [
      | some _ ↦ ok t
      | none ↦ ok (record t { items = t.items ++ w ∷ [] })
    ]

apply_created : Event → Created → Tables → Result Tables
unfolding new_item insert_item
apply_created e p t =
    if str_eq p.title "" then err (projector_failed "work_item.created: title is required") else do
      checks ← normalize_checks p.checks
      review ← normalize_review p.human_review_status
      insert_item (new_item e p (default_state p.state) checks review) t

-- NULLIF(reason, '')
abbrev pub nullif_empty : String → Option String
nullif_empty s = if str_eq s "" then none else some s

abbrev pub move_item : WorkItemState → WorkItemState → String → ℕ → WorkItem → WorkItem
move_item from to reason at w = record w {
  state = to;
  state_reason = nullif_empty reason;
  state_entered_at =
      if is_empty_state from || not (state_eq from to) then at else w.state_entered_at;
  updated_at = at;
}

apply_transitioned : Event → WorkItemState → WorkItemState → String → Tables → Result Tables
apply_transitioned e from to reason t =
    if is_empty_state to
    then err (projector_failed "work_item.transitioned: to is required")
    else if not (state_valid to)
    then err (constraint "work_items_state_check")
    else ok (record t {
      items = update_item e.subject_id (move_item from to reason e.occurred_at) t.items;
    })

abbrev pub touch_item : ℕ → WorkItem → WorkItem
touch_item at w = record w { updated_at = at }

abbrev pub has_relation : List (Uuid × Uuid) → Uuid → Uuid → Bool
has_relation rs p c = any (λ r. r.0 == p && r.1 == c) rs

abbrev is_some_item : Option WorkItem → Bool
is_some_item none = false
is_some_item (some _) = true

-- INSERT … ON CONFLICT (parent_id, child_id) DO NOTHING, under the foreign keys and the CHECK of the
-- table.
apply_relation_added : Uuid → Uuid → Tables → Result Tables
apply_relation_added p c t =
    if p == nil_uuid || c == nil_uuid
    then err (projector_failed "work_item.relation_added: parent_id and child_id are required")
    else if p == c
    then err (constraint "work_item_relations_check")
    else if not (is_some_item (find_item p t.items) && is_some_item (find_item c t.items))
    then err (constraint "work_item_relations_fkey")
    else if has_relation t.relations p c
    then ok t
    else ok (record t { relations = t.relations ++ (p, c) ∷ [] })

abbrev pub describe_item : List String → HumanReviewStatus → ℕ → WorkItem → WorkItem
describe_item checks review at w = record w {
  checks = checks;
  human_review_status = review;
  updated_at = at;
}

apply_metadata_updated : Event → Metadata → Tables → Result Tables
apply_metadata_updated e to t = do
  checks ← normalize_checks to.checks
  review ← normalize_review to.human_review_status
  ok (record t {
    items = update_item e.subject_id (describe_item checks review e.occurred_at) t.items;
  })

apply_checks_proposed : Event → SubjectKind → Tables → Result Tables
apply_checks_proposed e SubjectKind.work_item t =
    ok (record t { items = update_item e.subject_id (touch_item e.occurred_at) t.items })
apply_checks_proposed e _ t =
    err (projector_failed "convergence.checks_proposed: expected subject_kind work_item")

-- Registry.Apply of internal/projections with the projectors that RegisterProjectors adds: one for
-- each of these kinds, and no row of these tables from any other.
project_payload : Event → Payload → Tables → Result Tables
unfolding apply_created apply_transitioned apply_relation_added apply_metadata_updated
    apply_checks_proposed
project_payload e (created p) t = apply_created e p t
project_payload e (transitioned from to reason) t = apply_transitioned e from to reason t
project_payload e (event_appended _ _) t =
    ok (record t { items = update_item e.subject_id (touch_item e.occurred_at) t.items })
project_payload e (relation_added p c) t = apply_relation_added p c t
project_payload e (metadata_updated _ to) t = apply_metadata_updated e to t
project_payload e (checks_proposed _) t = apply_checks_proposed e e.subject_kind t
project_payload e _ t = ok t

unfoldable pub project : Event → Tables → Result Tables
unfolding project_payload
project e t = project_payload e e.payload t
