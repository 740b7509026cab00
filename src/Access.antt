-- ===== src/Access.antt =====
-- internal/access/access.go: what a token may see and do. Parsing an identifier (uuid.Parse) is a
-- parameter. The pool is the rows of work_item_relations, `none` where the service has none.
pub mod Tools
pub mod Tree
pub mod Filters
pub mod Delegated
pub mod Examples
use meristem.Base.{
  ℕ, String, Bool, true, false, ◌&&◌, ◌||◌, not, Option, none, some, List, [], ◌∷◌, ◌++◌, map, ◌==◌,
  str_eq, if◌then◌else◌, any, all, select, is_empty, contains, contains_id, length, has_prefix,
  strip_prefix?, trim_space,
}
use meristem.Domain.{Uuid, nil_uuid, Token, Source, WorkItem, EventKind}
use meristem.Events.{SubjectKind}
use meristem.WorkItems.Ancestry.{Relations, fresh, close}

abbrev scope_work_items_read : String
scope_work_items_read = "work_items.read"

abbrev scope_work_items_read_all : String
scope_work_items_read_all = "work_items.read_all"

abbrev scope_work_items_write : String
scope_work_items_write = "work_items.write"

abbrev scope_work_items_write_all : String
scope_work_items_write_all = "work_items.write_all"

abbrev scope_work_items_create : String
scope_work_items_create = "work_items.create"

abbrev scope_feed_read : String
scope_feed_read = "feed.read"

abbrev scope_feed_read_assigned : String
scope_feed_read_assigned = "feed.read_assigned"

abbrev tree_prefix : String
tree_prefix = "work_items.tree:"

pub data AccessError : Type 0 where
  denied no_database : AccessError

pub data Access {ℓ} (A : Type ℓ) : Type ℓ where
  ok : A → Access A
  err : AccessError → Access A

-- scopeSet: the keys of the map.
unfoldable pub scope_set : List String → List String
scope_set scopes = select (λ s. not (str_eq s "")) (map trim_space scopes)

unfoldable pub has_scope : Token → String → Bool
has_scope actor scope = any (λ candidate. str_eq (trim_space candidate) scope) actor.scopes

unfoldable pub legacy_unscoped : Token → Bool
legacy_unscoped actor = not (any (λ scope. not (str_eq (trim_space scope) "")) actor.scopes)

abbrev pub requires_scoped_policy : Token → Bool
requires_scoped_policy actor = not actor.is_root && not (legacy_unscoped actor)

unfoldable pub can_read_work_items : List String → Bool
can_read_work_items scopes =
    contains scopes scope_work_items_read
    || contains scopes scope_work_items_read_all
    || contains scopes scope_work_items_write
    || contains scopes scope_work_items_write_all

unfoldable pub can_write_work_items : List String → Bool
can_write_work_items scopes =
    contains scopes scope_work_items_write || contains scopes scope_work_items_write_all

-- The identifiers of a feed item: its payload as the two structs that json.Unmarshal is given,
-- `none` where that fails, and a missing key as uuid.Nil.
pub record FeedItem : Type 0 where
  pub kind : EventKind
  pub subject_kind : SubjectKind
  pub subject_id : Uuid
  -- work_item_id and human_work_item_id
  pub item_ids : Option (Uuid × Uuid)
  -- parent_id and child_id
  pub relation_ids : Option (Uuid × Uuid)

abbrev pub known_ids : Option (Uuid × Uuid) → List Uuid
known_ids none = []
known_ids (some (a, b)) = select (λ id. not (id == nil_uuid)) (a ∷ b ∷ [])

abbrev subject_anchor : SubjectKind → Uuid → List Uuid
subject_anchor SubjectKind.work_item id = id ∷ []
subject_anchor _ id = []

abbrev anchors_of : EventKind → FeedItem → List Uuid
anchors_of EventKind.work_item_relation_added item = item.subject_id ∷ known_ids item.relation_ids
anchors_of EventKind.convergence_checks_proposed item = item.subject_id ∷ []
anchors_of EventKind.convergence_verdict_recorded item = item.subject_id ∷ []
anchors_of EventKind.message_captured item = known_ids item.item_ids
anchors_of EventKind.signal_received item = known_ids item.item_ids
anchors_of EventKind.escalation_requested item = known_ids item.item_ids
anchors_of EventKind.subactor_grant_requested item = known_ids item.item_ids
anchors_of EventKind.subactor_grant_granted item = known_ids item.item_ids
anchors_of EventKind.subactor_grant_denied item = known_ids item.item_ids
anchors_of EventKind.subactor_grant_escalated item = known_ids item.item_ids
anchors_of EventKind.cultivar_activation_requested item = known_ids item.item_ids
anchors_of EventKind.cultivar_activation_granted item = known_ids item.item_ids
anchors_of EventKind.cultivar_activation_denied item = known_ids item.item_ids
anchors_of EventKind.cultivar_activation_escalated item = known_ids item.item_ids
anchors_of EventKind.approval_created item = known_ids item.item_ids
anchors_of EventKind.approval_decided item = known_ids item.item_ids
anchors_of EventKind.approval_expired item = known_ids item.item_ids
anchors_of EventKind.http_connector_action_requested item = known_ids item.item_ids
anchors_of EventKind.http_connector_action_approved item = known_ids item.item_ids
anchors_of EventKind.http_connector_action_sent item = known_ids item.item_ids
anchors_of EventKind.tropism_defined item = []
anchors_of EventKind.cultivar_defined item = []
anchors_of EventKind.projection_defined item = []
anchors_of _ item = subject_anchor item.subject_kind item.subject_id

-- feedItemAnchors
unfoldable pub feed_item_anchors : FeedItem → List Uuid
feed_item_anchors item = anchors_of item.kind item

-- candidates: the anchors of all items.
unfoldable pub all_anchors : List FeedItem → List Uuid
all_anchors [] = []
all_anchors (item ∷ items) = feed_item_anchors item ++ all_anchors items

-- The relations read downwards.
unfoldable pub turned : Relations → Relations
turned [] = []
turned (r ∷ rs) = (r.1, r.0) ∷ turned rs

-- The recursive query from the roots down, in the rounds of WorkItems/Ancestry. A round that goes
-- on adds a child, so there are at most as many as relations.
unfoldable pub subtree : Relations → List Uuid → List Uuid
subtree rel roots = let first = fresh [] roots in close (length rel) (turned rel) first first

abbrev is_human : Source → Bool
is_human Source.human = true
is_human _ = false

abbrev pub writing_tools : List String
writing_tools =
    "work_items.spawn_child" ∷ "work_items.append_event" ∷ "work_items.update_metadata"
    ∷ "work_items.transition" ∷ "convergence.propose_checks" ∷ "registry.activate_cultivar"
    ∷ "approvals.request" ∷ "connectors.http_request" ∷ []

abbrev pub reading_tools : List String
reading_tools =
    "backlog.readiness" ∷ "registry.list" ∷ "registry.get" ∷ "projections.list" ∷ "projections.get"
    ∷ "work_items.list" ∷ "work_items.get" ∷ "approvals.get" ∷ "approvals.list_for_work_item" ∷ []

abbrev pub registry_tools : List String
registry_tools = "registry.define_tropism" ∷ "registry.define_cultivar" ∷ "projections.define" ∷ []

abbrev logs_scopes : List String
logs_scopes =
    "logs.read" ∷ "logs.read_details" ∷ "logs.read_restricted" ∷ "logs.read_masked"
    ∷ "logs.read_all" ∷ []

unfoldable pub can_create_work_item : Token → Access (Unit {0})
can_create_work_item actor =
    if actor.is_root
      || legacy_unscoped actor
      || has_scope actor scope_work_items_create
      || has_scope actor scope_work_items_write_all
    then ok tt
    else err denied

abbrev pub require : Access (List Uuid) → Uuid → Access (Unit {0})
require (err e) id = err e
require (ok visible) id = if contains_id visible id then ok tt else err denied

abbrev pub keep_visible : List WorkItem → Access (List Uuid) → Access (List WorkItem)
keep_visible items (err e) = err e
keep_visible items (ok visible) = ok (select (λ item. contains_id visible item.id) items)

abbrev pub keep_anchored : List FeedItem → Access (List Uuid) → Access (List FeedItem)
keep_anchored items (err e) = err e
keep_anchored items (ok visible) =
    ok (select (λ item. any (contains_id visible) (feed_item_anchors item)) items)

module _ (parse : String → Option Uuid) where
  abbrev pub root_of : String → List Uuid → List Uuid
  root_of scope rest = elim (strip_prefix? tree_prefix scope) [
    | none ↦ rest
    | some text ↦ elim (parse text) [
      | none ↦ rest
      | some id ↦ if id == nil_uuid then rest else id ∷ rest
    ]
  ]

  -- workItemTreeRoots
  unfoldable pub tree_roots : List String → List Uuid
  tree_roots [] = []
  tree_roots (scope ∷ scopes) = root_of (trim_space scope) (tree_roots scopes)

  abbrev pub has_tree_scope : Token → Bool
  has_tree_scope actor = not (is_empty (tree_roots actor.scopes))

  unfoldable pub work_items_in_any_tree : Option Relations → Token → List Uuid → Access (List Uuid)
  work_items_in_any_tree none actor ids = err no_database
  work_items_in_any_tree (some rel) actor ids =
      let roots = tree_roots actor.scopes in
      if is_empty roots || is_empty ids
      then ok []
      else ok (select (contains_id (subtree rel roots)) ids)

  -- workItemInAnyTree, and the refusal that CanReadWorkItem and CanWriteWorkItem make of it.
  abbrev pub require_in_tree : Option Relations → Token → Uuid → Access (Unit {0})
  require_in_tree pool actor id = require (work_items_in_any_tree pool actor (id ∷ [])) id

  abbrev pub reads_all : Token → Bool
  reads_all actor =
      actor.is_root
      || legacy_unscoped actor
      || has_scope actor scope_work_items_read_all
      || has_scope actor scope_work_items_write_all

  unfoldable pub filter_work_items :
      Option Relations → Token → List WorkItem → Access (List WorkItem)
  filter_work_items pool actor items =
      if reads_all actor
      then ok items
      else if not (can_read_work_items (scope_set actor.scopes))
      then err denied
      else keep_visible items (work_items_in_any_tree pool actor (map (λ item. item.id) items))

  unfoldable pub can_read_work_item : Option Relations → Token → Uuid → Access (Unit {0})
  can_read_work_item pool actor id =
      if reads_all actor
      then ok tt
      else if not (can_read_work_items (scope_set actor.scopes))
      then err denied
      else require_in_tree pool actor id

  unfoldable pub can_write_work_item : Option Relations → Token → Uuid → Access (Unit {0})
  can_write_work_item pool actor id =
      if actor.is_root || legacy_unscoped actor || has_scope actor scope_work_items_write_all
      then ok tt
      else if not (can_write_work_items (scope_set actor.scopes))
      then err denied
      else require_in_tree pool actor id

  unfoldable pub filter_feed_items :
      Option Relations → Token → List FeedItem → Access (List FeedItem)
  filter_feed_items pool actor items =
      if actor.is_root || legacy_unscoped actor || has_scope actor scope_feed_read
      then ok items
      else if not (has_scope actor scope_feed_read_assigned)
      then err denied
      else keep_anchored items (work_items_in_any_tree pool actor (all_anchors items))

  abbrev reads_tree_or_all : Token → Bool
  reads_tree_or_all actor =
      let scopes = scope_set actor.scopes in
      can_read_work_items scopes
      && (contains scopes scope_work_items_read_all
          || contains scopes scope_work_items_write_all
          || has_tree_scope actor)

  -- The switch of ToolVisible.
  unfoldable pub scoped_tool_visible : Token → String → Bool
  scoped_tool_visible actor tool =
      let scopes = scope_set actor.scopes in
      if str_eq tool "inbox.capture"
      then is_human actor.source && contains scopes "inbox.capture"
      else if str_eq tool "feed.read"
      then contains scopes scope_feed_read
        || (contains scopes scope_feed_read_assigned && has_tree_scope actor)
      else if contains ("deterministic_errors.list" ∷ "deterministic_errors.get" ∷ []) tool
      then any (contains scopes) logs_scopes
      else if contains reading_tools tool
      then reads_tree_or_all actor
      else if str_eq tool "work_items.create"
      then contains scopes scope_work_items_create || contains scopes scope_work_items_write_all
      else if contains writing_tools tool
      then contains scopes scope_work_items_write_all
        || (contains scopes scope_work_items_write && has_tree_scope actor)
      else false

  unfoldable pub tool_visible : Token → String → Bool
  tool_visible actor tool =
      if str_eq tool "policy_profile.switch"
      then is_human actor.source
        && not actor.is_root
        && (legacy_unscoped actor || has_scope actor "policy_profile.switch")
      else if contains registry_tools tool
      then not actor.is_root && (legacy_unscoped actor || has_scope actor "registry.write")
      else if str_eq tool "approvals.decide"
      then is_human actor.source
        && not actor.is_root
        && (legacy_unscoped actor || has_scope actor "approvals.decide")
      else if actor.is_root || legacy_unscoped actor
      then true
      else scoped_tool_visible actor tool
