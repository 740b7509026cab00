-- ===== src/Grants/Examples.antt =====
-- The grant reducer of internal/grants/reducer.go on one request.
use meristem.Base.{
  String, true, false, none, [], ◌∷◌, ◌≡◌, ◌⊎◌, refl, contains, show_ℕ, sort_strings, concat,
  strip_prefix?,
}
use meristem.Domain.{Token, Source, HumanReviewStatus}
use meristem.Grants.{
  Template, Request, grant, same, reduce, template_scope_set, scope_feed_read,
  scope_feed_read_assigned, scope_work_items_write, contains_logs_scope, is_tree_scope, tree_scope,
  scope_set, parent_covers_template, parent_tree_ok, covers_scope,
}
use meristem.Grants.Safety.{reduce-subset}
use meristem.Grants.Trees.{reduce-tree}

abbrev agent_token : Token
agent_token = record {
  id = 7;
  name = "agent";
  is_root = false;
  scopes = "feed.read" ∷ "work_items.read" ∷ "work_items.write" ∷ "work_items.tree:5" ∷ [];
  source = Source.agent;
  revoked_at = none;
}

abbrev worker_request : Request
worker_request = record {
  parent = agent_token;
  template = Template.same_tree_worker;
  requested_source = none;
  requested_tree_root = 5;
  requested_scopes = [];
  tree_relation = same;
  delegation_depth_known = true;
  delegation_depth = 1;
  max_delegation_depth = 2;
  depth_budget_source = "";
  human_review_status = HumanReviewStatus.approved;
  approval_authority = false;
  requested_logs_scope = false;
}

granted : (reduce show_ℕ worker_request).disposition ≡ grant
unfolding reduce template_scope_set parent_covers_template parent_tree_ok covers_scope scope_set
    is_tree_scope contains_logs_scope concat show_ℕ strip_prefix?
granted = refl

writes : contains (reduce show_ℕ worker_request).scopes scope_work_items_write ≡ true
unfolding reduce template_scope_set parent_covers_template parent_tree_ok covers_scope scope_set
    is_tree_scope contains_logs_scope sort_strings concat show_ℕ strip_prefix?
writes = refl

plain : is_tree_scope scope_work_items_write ≡ false
unfolding is_tree_scope strip_prefix?
plain = refl

reduce-subset_example :
    (contains agent_token.scopes scope_work_items_write ≡ true)
    ⊎ ((scope_work_items_write ≡ scope_feed_read_assigned)
        × (contains agent_token.scopes scope_feed_read ≡ true))
reduce-subset_example =
    reduce-subset show_ℕ worker_request scope_work_items_write granted writes plain

reduce-tree_example :
    (contains (reduce show_ℕ worker_request).scopes (tree_scope show_ℕ 5) ≡ true)
    × ((s : String)
        → contains (reduce show_ℕ worker_request).scopes s ≡ true
        → is_tree_scope s ≡ true
        → s ≡ tree_scope show_ℕ 5)
    × (worker_request.tree_relation ≡ same
        → contains agent_token.scopes (tree_scope show_ℕ 5) ≡ true)
reduce-tree_example = reduce-tree show_ℕ worker_request granted
