-- ===== src/Access/Tools.antt =====
-- The tools that internal/access/access.go shows agree with the calls that it lets through.
use meristem.Base.{
  String, Bool, true, Option, some, List, [], ◌∷◌, ◌≡◌, ◌↔◌, refl, arith, ==_iff, contains,
  is_empty, str_eq, eq_iff, Bool-cases, inl, inr, any, trim_space, all, all_at, ◌&&◌, ◌||◌, not,
  false,
}
use meristem.Domain.{Uuid, Token}
use meristem.WorkItems.Ancestry.{Relations}
use meristem.Access.{
  ok, tool_visible, scoped_tool_visible, can_write_work_item, can_write_work_items, tree_roots,
  scope_set, has_scope, legacy_unscoped, requires_scoped_policy, writing_tools, registry_tools,
  has_tree_scope, reading_tools,
}
use meristem.Access.Tree.{InTree, at_root, below}
use meristem.Access.Filters.{can_write_work_item_iff}

contains-scope_set :
    (scopes : List String) (s : String)
    → str_eq s "" ≡ false
    → contains (scope_set scopes) s ≡ any (λ candidate. str_eq (trim_space candidate) s) scopes
unfolding scope_set
contains-scope_set [] s h = refl
contains-scope_set (x ∷ xs) s h = ground (
  arith,
  contains-scope_set xs s h,
  eq_iff (trim_space x) s,
  eq_iff (trim_space x) "",
  eq_iff s "",
)

pub contains-scopes :
    (actor : Token) (s : String)
    → str_eq s "" ≡ false
    → contains (scope_set actor.scopes) s ≡ has_scope actor s
unfolding has_scope
contains-scopes actor s h = contains-scope_set actor.scopes s h

-- A test that fails at each writing tool.
no_writing_tool :
    (f : String → Bool) (tool : String)
    → all (λ t. not (f t)) writing_tools ≡ true
    → contains writing_tools tool ≡ true
    → f tool ≡ false
no_writing_tool f tool h k = ground (arith, all_at (λ t. not (f t)) writing_tools tool h k)

module _ (parse : String → Option Uuid) (rel : Relations) (actor : Token)
    (scoped : requires_scoped_policy actor ≡ true) where
  writing_tool-visible :
      (tool : String)
      → contains writing_tools tool ≡ true
      → tool_visible parse actor tool ≡ (
          contains (scope_set actor.scopes) "work_items.write_all"
          || (contains (scope_set actor.scopes) "work_items.write" && has_tree_scope parse actor))
  unfolding tool_visible scoped_tool_visible
  writing_tool-visible tool h =
      let a = no_writing_tool (λ t. str_eq t "policy_profile.switch") tool refl h in
      let b = no_writing_tool (λ t. contains registry_tools t) tool refl h in
      let c = no_writing_tool (λ t. str_eq t "approvals.decide") tool refl h in
      let d = no_writing_tool (λ t. str_eq t "inbox.capture") tool refl h in
      let e = no_writing_tool (λ t. str_eq t "feed.read") tool refl h in
      let f =
        no_writing_tool
          (λ t. contains ("deterministic_errors.list" ∷ "deterministic_errors.get" ∷ []) t) tool
          refl h in
      let g = no_writing_tool (λ t. contains reading_tools t) tool refl h in
      let r = no_writing_tool (λ t. str_eq t "work_items.create") tool refl h in
      let s : (actor.is_root || legacy_unscoped actor) ≡ false = ground (arith, scoped) in
      rw (a, b, c, s, d, e, f, g, r, h)

  write_all :
      contains (scope_set actor.scopes) "work_items.write_all"
      ≡ has_scope actor "work_items.write_all"
  write_all = contains-scopes actor "work_items.write_all" refl

  no_tree : {roots : List Uuid} {id : Uuid} → InTree rel roots id → is_empty roots ≡ false
  no_tree {roots = []} (at_root h) = cc
  no_tree {roots = x ∷ xs} (at_root h) = refl
  no_tree (below t r) = no_tree t

  -- The first root of a token with a tree scope.
  first_root : (roots : List Uuid) → is_empty roots ≡ false → (id : Uuid) × InTree rel roots id
  first_root [] h = absurd cc
  first_root (x ∷ xs) h = (x, at_root (ground (arith, (==_iff x x).1 refl)))

  can_write_all :
      (id : Uuid)
      → has_scope actor "work_items.write_all" ≡ true
      → can_write_work_item parse (some rel) actor id ≡ ok tt
  unfolding can_write_work_item
  can_write_all id h = ground arith

  can_write-scopes :
      (id : Uuid)
      → has_scope actor "work_items.write_all" ≡ false
      → can_write_work_item parse (some rel) actor id ≡ ok tt
      → contains (scope_set actor.scopes) "work_items.write" ≡ true
  unfolding can_write_work_item can_write_work_items
  can_write-scopes id h k = ground (arith, write_all)

  writes :
      has_scope actor "work_items.write_all" ≡ false
      → contains (scope_set actor.scopes) "work_items.write" ≡ true
      → can_write_work_items (scope_set actor.scopes) ≡ true
  unfolding can_write_work_items
  writes h k = ground arith

  -- A scoped token is shown a tool that writes work items exactly if there is an identifier that
  -- CanWriteWorkItem lets it write.
  pub tool_visible-iff-can_write :
      (tool : String)
      → contains writing_tools tool ≡ true
      → (tool_visible parse actor tool ≡ true)
        ↔ ((id : Uuid) × (can_write_work_item parse (some rel) actor id ≡ ok tt))
  tool_visible-iff-can_write tool h =
      let shown = writing_tool-visible tool h in
      elim (Bool-cases (has_scope actor "work_items.write_all")) [
        | inl all ↦ (λ v. (0, can_write_all 0 all), λ w. ground (arith, shown, write_all, all))
        | inr one ↦ (
          λ v.
              let k : contains (scope_set actor.scopes) "work_items.write" ≡ true =
                ground (arith, shown, write_all, one) in
              let (id, t) =
                first_root (tree_roots parse actor.scopes)
                  (ground (arith, shown, write_all, one)) in
              (id, (can_write_work_item_iff parse rel actor id scoped one (writes one k)).1 t),
          λ (id, w).
              let k = can_write-scopes id one w in
              let t =
                no_tree
                  ((can_write_work_item_iff parse rel actor id scoped one (writes one k)).0 w) in
              ground (arith, shown, write_all, one, k, t),
        )
      ]
