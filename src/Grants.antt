-- ===== src/Grants.antt =====
-- internal/grants/reducer.go: the pure reducer that decides a request for a delegated token. The
-- text of an identifier (uuid.UUID.String) is a parameter.
pub mod Safety
pub mod Trees
pub mod Sets
pub mod Examples
use meristem.Base.{
  ℕ, String, Bool, true, false, ◌&&◌, ◌||◌, not, Option, none, some, List, [], ◌∷◌, ◌==◌, ltb,
  str_eq, if◌then◌else◌, any, all, is_empty, contains, length, concat, show_ℕ, sort_strings,
  has_prefix, trim_space, strip_prefix?, quote,
}
use meristem.Domain.{Uuid, nil_uuid, Token, Source, HumanReviewStatus}

pub data Template : Type 0 where
  same_tree_read_progress same_tree_worker : Template
  unknown : String → Template

abbrev template_name : Template → String
template_name same_tree_read_progress = "same_tree_read_progress"
template_name same_tree_worker = "same_tree_worker"
template_name (Template.unknown s) = s

pub data GrantDisposition : Type 0 where
  grant deny escalate : GrantDisposition

pub data TreeRelation : Type 0 where
  same descendant outside : TreeRelation
  -- "unknown", and any other text.
  unknown : String → TreeRelation

pub record Request : Type 0 where
  pub parent : Token
  pub template : Template
  -- `none` is the empty text.
  pub requested_source : Option Source
  pub requested_tree_root : Uuid
  pub requested_scopes : List String
  pub tree_relation : TreeRelation
  pub delegation_depth_known : Bool
  pub delegation_depth : ℕ
  pub max_delegation_depth : ℕ
  pub depth_budget_source : String
  pub human_review_status : HumanReviewStatus
  pub approval_authority : Bool
  pub requested_logs_scope : Bool

pub record Decision : Type 0 where
  pub disposition : GrantDisposition
  pub reason : String
  pub scopes : List String

abbrev deny_with : String → Decision
deny_with reason = record { disposition = deny; reason = reason; scopes = [] }

abbrev escalate_with : String → Decision
escalate_with reason = record { disposition = escalate; reason = reason; scopes = [] }

-- The constants of internal/access.
abbrev pub scope_work_items_read : String
scope_work_items_read = "work_items.read"

abbrev pub scope_work_items_write : String
scope_work_items_write = "work_items.write"

abbrev pub scope_feed_read : String
scope_feed_read = "feed.read"

abbrev pub scope_feed_read_assigned : String
scope_feed_read_assigned = "feed.read_assigned"

abbrev pub tree_prefix : String
tree_prefix = "work_items.tree:"

-- strings.HasPrefix with the two prefixes that the package tests.
unfoldable pub is_tree_scope : String → Bool
is_tree_scope scope = has_prefix scope tree_prefix

unfoldable pub contains_logs_scope : List String → Bool
contains_logs_scope scopes = any (λ scope. has_prefix scope "logs.") scopes

-- The keys of scopeSet(scopes): its range and its size are those of the list without repetitions.
unfoldable pub scope_set : List String → List String
scope_set [] = []
scope_set (s ∷ ss) = let rest = scope_set ss in if contains rest s then rest else s ∷ rest

unfoldable pub same_scope_set : List String → List String → Bool
same_scope_set a b =
    length (scope_set a) == length (scope_set b) && all (contains (scope_set b)) (scope_set a)

abbrev is_agent : Source → Bool
is_agent Source.agent = true
is_agent _ = false

-- `source != "" && source != SourceAgent`
abbrev names_other_source : Option Source → Bool
names_other_source none = false
names_other_source (some s) = not (is_agent s)

abbrev is_approved : HumanReviewStatus → Bool
is_approved HumanReviewStatus.approved = true
is_approved _ = false

abbrev is_some {ℓ} : {A : Type ℓ} → Option A → Bool
is_some none = false
is_some (some _) = true

abbrev pub is_descendant : TreeRelation → Bool
is_descendant descendant = true
is_descendant _ = false

abbrev tree_relation_known : TreeRelation → Bool
tree_relation_known same = true
tree_relation_known descendant = true
tree_relation_known _ = false

abbrev is_outside : TreeRelation → Bool
is_outside outside = true
is_outside _ = false

module _ (uuid_text : Uuid → String) where
  abbrev pub tree_scope : Uuid → String
  tree_scope root = concat (tree_prefix ∷ uuid_text root ∷ [])

  -- The scopes of a template, and whether it can write.
  unfoldable pub template_scope_set : Template → Uuid → Option (List String × Bool)
  template_scope_set same_tree_read_progress root =
      some (scope_feed_read_assigned ∷ scope_work_items_read ∷ tree_scope root ∷ [], false)
  template_scope_set same_tree_worker root = some (
    scope_feed_read_assigned
        ∷ scope_work_items_read
        ∷ scope_work_items_write
        ∷ tree_scope root
        ∷ [],
    true,
  )
  template_scope_set (Template.unknown _) root = none

  -- The first loop of parentCoversTemplate.
  unfoldable pub parent_tree_ok : List String → Uuid → TreeRelation → Bool
  parent_tree_ok parent root relation =
      any
        (λ scope. str_eq scope (tree_scope root) || (is_descendant relation && is_tree_scope scope))
        parent

  -- The second loop: what lets one scope of the grant pass.
  unfoldable pub covers_scope : List String → String → Bool
  covers_scope parent scope =
      is_tree_scope scope
      || contains parent scope
      || (str_eq scope scope_feed_read_assigned && contains parent scope_feed_read)

  unfoldable pub parent_covers_template : List String → List String → Uuid → TreeRelation → Bool
  parent_covers_template parent_scopes grant_scopes root relation =
      if not (parent_tree_ok (scope_set parent_scopes) root relation)
      then false
      else all (covers_scope (scope_set parent_scopes)) grant_scopes

  depth_reason : Request → String
  depth_reason req =
      let trimmed = trim_space req.depth_budget_source in
      let source = if str_eq trimmed "" then "unknown" else trimmed in
      concat (
        "delegation_depth_exceeded: target depth "
        ∷ show_ℕ req.delegation_depth
        ∷ " exceeds max "
        ∷ show_ℕ req.max_delegation_depth
        ∷ " from "
        ∷ source
        ∷ [])

  -- Reduce from the template on.
  reduce_template : Request → Option (List String × Bool) → Decision
  reduce_template req none =
      deny_with (concat ("unknown grant template " ∷ quote (template_name req.template) ∷ []))
  reduce_template req (some (template_scopes, write_template)) =
      if not (is_empty req.requested_scopes)
        && not (same_scope_set req.requested_scopes template_scopes)
      then escalate_with "requested scopes do not match the named grant template"
      else if write_template && not (is_approved req.human_review_status)
      then escalate_with "write-capable subactor grants require explicit human approval"
      else if not (
          parent_covers_template req.parent.scopes template_scopes req.requested_tree_root
            req.tree_relation)
      then escalate_with "requested grant is not a subset of parent token scopes"
      else record {
        disposition = grant;
        reason = "grant matches named template, same-tree policy, and parent scope subset";
        scopes = sort_strings template_scopes;
      }

  -- The checks of Reduce that come before the template, in the order of the code; then the rest.
  unfoldable pub reduce : Request → Decision
  unfolding reduce_template depth_reason
  reduce req =
      if req.parent.id == nil_uuid
      then deny_with "parent token is required"
      else if is_some req.parent.revoked_at
      then deny_with "parent token is revoked"
      else if req.parent.is_root
      then escalate_with "root delegation requires operator path"
      else if not (is_agent req.parent.source)
      then escalate_with "only agent tokens may self-delegate subactors"
      else if names_other_source req.requested_source
      then escalate_with "subactor source must remain agent"
      else if is_empty req.parent.scopes
      then escalate_with "legacy unscoped parent token cannot self-delegate"
      else if req.approval_authority
      then escalate_with "approval authority cannot be self-delegated"
      else if req.requested_logs_scope || contains_logs_scope req.requested_scopes
      then escalate_with "logs visibility requires human approval"
      else if req.requested_tree_root == nil_uuid
      then deny_with "requested work_items.tree root is required"
      else if is_outside req.tree_relation
      then escalate_with "requested tree root is outside parent assignment"
      else if not (tree_relation_known req.tree_relation)
      then escalate_with "requested tree relation is unknown"
      else if req.delegation_depth_known && ltb req.max_delegation_depth req.delegation_depth
      then escalate_with (depth_reason req)
      else reduce_template req (template_scope_set req.template req.requested_tree_root)
