-- ===== src/Access/Examples.antt =====
-- The policies of internal/access/access.go on concrete tokens.
use meristem.Base.{
  String, Bool, true, false, Option, none, some, [], ◌∷◌, ◌≡◌, ◌↔◌, ◌⊎◌, refl, str_eq,
  if◌then◌else◌, select, contains, trim_space, strip_prefix?, concat, show_ℕ,
}
use meristem.Domain.{Uuid, Token, Source, WorkItem, WorkItemState, HumanReviewStatus, EventKind}
use meristem.Events.{SubjectKind}
use meristem.WorkItems.Ancestry.{Relations, close}
use meristem.Grants.{
  Request, grant, same, reduce, same_tree_worker, template_scope_set, scope_set as granted_set,
  is_tree_scope, contains_logs_scope, parent_covers_template, parent_tree_ok, covers_scope,
  tree_scope,
}
use meristem.Access.{
  ok, err, denied, FeedItem, filter_work_items, can_read_work_item, can_write_work_item,
  can_create_work_item, filter_feed_items, scope_set, has_scope, legacy_unscoped,
  requires_scoped_policy, can_read_work_items, tree_roots, tool_visible, writing_tools,
  work_items_in_any_tree, subtree, turned,
}
use meristem.Access.Tree.{InTree}
use meristem.Access.Filters.{Anchored, filter_work_items-visible, filter_feed_items-visible}
use meristem.Access.Tools.{tool_visible-iff-can_write}
use meristem.Access.Delegated.{granted_token-stays}

abbrev parse : String → Option Uuid
parse s = if str_eq s "5" then some 5 else none

-- 5 is the parent of 6, and 6 of 8; 7 has no parent.
abbrev rel : Relations
rel = (5, 6) ∷ (6, 8) ∷ []

abbrev worker : Token
worker = record {
  id = 9;
  name = "worker";
  is_root = false;
  scopes =
      "feed.read_assigned" ∷ " work_items.read " ∷ "work_items.write" ∷ "work_items.tree:5" ∷ [];
  source = Source.agent;
  revoked_at = none;
}

abbrev item : Uuid → WorkItem
item id = record {
  id = id;
  title = "item";
  body = "";
  state = WorkItemState.running;
  state_reason = none;
  checks = [];
  human_review_status = HumanReviewStatus.approved;
  created_by = none;
  created_at = 0;
  state_entered_at = 0;
  updated_at = 0;
}

scoped : requires_scoped_policy worker ≡ true
unfolding legacy_unscoped trim_space
scoped = refl

reads :
    (has_scope worker "work_items.read_all" ≡ false)
    × (has_scope worker "work_items.write_all" ≡ false)
    × (can_read_work_items (scope_set worker.scopes) ≡ true)
    × (has_scope worker "feed.read" ≡ false)
    × (has_scope worker "feed.read_assigned" ≡ true)
unfolding has_scope can_read_work_items scope_set trim_space
reads = (refl, refl, refl, refl, refl)

sees_tree :
    filter_work_items parse (some rel) worker (item 8 ∷ item 7 ∷ item 5 ∷ [])
    ≡ ok (item 8 ∷ item 5 ∷ [])
unfolding filter_work_items work_items_in_any_tree has_scope can_read_work_items scope_set
    legacy_unscoped trim_space tree_roots strip_prefix? subtree turned close
sees_tree = refl

filter_work_items-visible_example :
    (visible : Uuid → Bool) × ((id : Uuid)
      → (visible id ≡ true) ↔ InTree rel (tree_roots parse worker.scopes) id)
    × (filter_work_items parse (some rel) worker (item 8 ∷ item 7 ∷ [])
        ≡ ok (select (λ w. visible w.id) (item 8 ∷ item 7 ∷ [])))
    × ((id : Uuid)
        → (can_read_work_item parse (some rel) worker id ≡ ok tt)
          ↔ InTree rel (tree_roots parse worker.scopes) id)
filter_work_items-visible_example =
    filter_work_items-visible parse rel worker (item 8 ∷ item 7 ∷ []) scoped reads.0 reads.1 reads.2

abbrev approval : Uuid → FeedItem
approval id = record {
  kind = EventKind.approval_created;
  subject_kind = SubjectKind.other "approval";
  subject_id = 77;
  item_ids = some (id, 0);
  relation_ids = none;
}

filter_feed_items-visible_example :
    (visible : FeedItem → Bool) × ((x : FeedItem)
      → (visible x ≡ true) ↔ Anchored parse rel worker x)
    × (filter_feed_items parse (some rel) worker (approval 6 ∷ approval 7 ∷ [])
        ≡ ok (select visible (approval 6 ∷ approval 7 ∷ [])))
filter_feed_items-visible_example =
    filter_feed_items-visible parse rel worker (approval 6 ∷ approval 7 ∷ []) scoped reads.3 reads.4

is_writing : contains writing_tools "work_items.transition" ≡ true
is_writing = refl

tool_visible-iff-can_write_example :
    (tool_visible parse worker "work_items.transition" ≡ true)
    ↔ ((id : Uuid) × (can_write_work_item parse (some rel) worker id ≡ ok tt))
tool_visible-iff-can_write_example =
    tool_visible-iff-can_write parse rel worker scoped "work_items.transition" is_writing

abbrev request : Request
request = record {
  parent = record worker {
    scopes = "feed.read" ∷ "work_items.read" ∷ "work_items.write" ∷ "work_items.tree:5" ∷ [];
  };
  template = same_tree_worker;
  requested_source = none;
  requested_tree_root = 5;
  requested_scopes = [];
  tree_relation = same;
  delegation_depth_known = true;
  delegation_depth = 1;
  max_delegation_depth = 2;
  depth_budget_source = "";
  human_review_status = HumanReviewStatus.approved;
  approval_authority = false;
  requested_logs_scope = false;
}

abbrev subactor : Token
subactor = record worker { id = 10; scopes = (reduce show_ℕ request).scopes }

is_granted : (reduce show_ℕ request).disposition ≡ grant
unfolding reduce template_scope_set parent_covers_template parent_tree_ok covers_scope granted_set
    is_tree_scope contains_logs_scope concat show_ℕ strip_prefix?
is_granted = refl

text_parses : (parse (show_ℕ 5) ≡ some 5) × (trim_space (tree_scope show_ℕ 5) ≡ tree_scope show_ℕ 5)
unfolding show_ℕ trim_space concat
text_parses = (refl, refl)

granted_token-stays_example :
    ((id : Uuid)
      → (can_read_work_item parse (some rel) subactor id ≡ ok tt) ↔ InTree rel (5 ∷ []) id)
    × (((id : Uuid) → can_write_work_item parse (some rel) subactor id ≡ err denied)
        ⊎ ((request.template ≡ same_tree_worker)
            × (request.human_review_status ≡ HumanReviewStatus.approved)
            × ((id : Uuid)
                → (can_write_work_item parse (some rel) subactor id ≡ ok tt)
                  ↔ InTree rel (5 ∷ []) id)))
    × (can_create_work_item subactor ≡ err denied)
    × (tool_visible parse subactor "approvals.decide" ≡ false)
    × (tool_visible parse subactor "policy_profile.switch" ≡ false)
    × (tool_visible parse subactor "registry.define_tropism" ≡ false)
granted_token-stays_example =
    granted_token-stays show_ℕ parse rel request subactor is_granted refl refl text_parses.0
      text_parses.1
