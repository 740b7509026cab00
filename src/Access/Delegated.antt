-- ===== src/Access/Delegated.antt =====
-- internal/grants and internal/access together: what a token with the scopes of a grant can do.
use meristem.Base.{
  String, Bool, true, false, ◌&&◌, ◌||◌, not, Option, some, List, [], ◌∷◌, ◌≡◌, ◌↔◌, ◌⊎◌, refl, ◌∙◌,
  ap, subst, arith, ◌==◌, any, contains_id, str_eq, eq_iff, trim_space, strip_prefix?, has_prefix,
  strip_prefix?-append, concat_two, any-sort_strings, Bool-cases, inl, inr,
}
use meristem.Domain.{Uuid, nil_uuid, Token, HumanReviewStatus}
use meristem.WorkItems.Ancestry.{Relations}
use meristem.Grants.{
  Template, same_tree_worker, same_tree_read_progress, Request, grant, reduce, template_scope_set,
  is_tree_scope, tree_scope, tree_prefix,
}
use meristem.Grants.Safety.{IsGranted, reduce-IsGranted, reduce-guards}
use meristem.Access.{
  ok, err, denied, tree_roots, has_scope, scope_set, legacy_unscoped, requires_scoped_policy,
  can_read_work_items, can_write_work_items, can_read_work_item, can_write_work_item, root_of,
  can_create_work_item, tool_visible,
}
use meristem.Access.Tree.{InTree, at_root, below}
use meristem.Access.Filters.{filter_work_items-visible, can_write_work_item_iff}
use meristem.Access.Tools.{contains-scopes}

stripped_prefix : (p s : String) {r : String} → strip_prefix? p s ≡ some r → has_prefix s p ≡ true
stripped_prefix p s h = ground arith

tree_ne_plain :
    (t s : String) → is_tree_scope t ≡ true → is_tree_scope s ≡ false → str_eq t s ≡ false
tree_ne_plain t s h k = elim (Bool-cases (str_eq t s)) [
  | inl e ↦ cc (h, k, ap is_tree_scope ((eq_iff t s).0 e))
  | inr e ↦ e
]

module _ (uuid_text : Uuid → String) where
  -- A test on the scopes of a template.
  template_any :
      (p : String → Bool) (template : Template) (root : Uuid) {scopes : List String} {writes : Bool}
      → template_scope_set uuid_text template root ≡ some (scopes, writes)
      → any p scopes ≡ (
          p "feed.read_assigned"
          || p "work_items.read"
          || (writes && p "work_items.write")
          || p (tree_scope uuid_text root))
  unfolding template_scope_set
  template_any p same_tree_read_progress root h = ground arith
  template_any p same_tree_worker root h = ground arith
  template_any p (Template.unknown s) root h = cc

  worker_writes :
      (template : Template) (root : Uuid) {scopes : List String}
      → template_scope_set uuid_text template root ≡ some (scopes, true)
      → template ≡ same_tree_worker
  unfolding template_scope_set
  worker_writes same_tree_read_progress root h = ground arith
  worker_writes same_tree_worker root h = refl
  worker_writes (Template.unknown s) root h = cc

  strip-tree_scope :
      (root : Uuid) → strip_prefix? tree_prefix (tree_scope uuid_text root) ≡ some (uuid_text root)
  strip-tree_scope root =
      rw (concat_two tree_prefix (uuid_text root))
        (strip_prefix?-append tree_prefix (uuid_text root))

  tree_scope-is_tree : (root : Uuid) → is_tree_scope (tree_scope uuid_text root) ≡ true
  unfolding is_tree_scope
  tree_scope-is_tree root = stripped_prefix tree_prefix _ (strip-tree_scope root)

  root-ne-nil :
      (req : Request)
      → (reduce uuid_text req).disposition ≡ grant
      → (req.requested_tree_root == nil_uuid) ≡ false
  unfolding reduce
  root-ne-nil req h = ground arith

InTree-mono :
    (rel : Relations) (xs ys : List Uuid)
    → ((id : Uuid) → contains_id xs id ≡ true → contains_id ys id ≡ true)
    → {id : Uuid} → InTree rel xs id
    → InTree rel ys id
InTree-mono rel xs ys h (at_root k) = at_root (h _ k)
InTree-mono rel xs ys h (below t r) = below (InTree-mono rel xs ys h t) r

-- The token of a granted request, under an identifier text that parses back and has no space at its
-- ends.
module _ (uuid_text : Uuid → String) (parse : String → Option Uuid) (rel : Relations)
    (req : Request) (t : Token) (granted : (reduce uuid_text req).disposition ≡ grant)
    (carries : t.scopes ≡ (reduce uuid_text req).scopes) (plain : t.is_root ≡ false)
    (parses : parse (uuid_text req.requested_tree_root) ≡ some req.requested_tree_root)
    (trims : trim_space (tree_scope uuid_text req.requested_tree_root)
      ≡ tree_scope uuid_text req.requested_tree_root) where
  abbrev top : Uuid
  top = req.requested_tree_root

  abbrev info :
      IsGranted uuid_text req
        (template_scope_set uuid_text req.template req.requested_tree_root)
        (reduce uuid_text req)
  info = reduce-IsGranted uuid_text req granted

  scopes_any :
      (p : String → Bool)
      → any p t.scopes ≡ (
          p "feed.read_assigned"
          || p "work_items.read"
          || (info.writes && p "work_items.write")
          || p (tree_scope uuid_text top))
  scopes_any p =
      ap (any p) carries
      ∙ ap (any p) info.sorted
      ∙ any-sort_strings p info.granted
      ∙ template_any uuid_text p req.template top info.template

  has_scope_lem :
      (s : String)
      → is_tree_scope s ≡ false
      → has_scope t s ≡ (
          str_eq "feed.read_assigned" s
          || str_eq "work_items.read" s
          || (info.writes && str_eq "work_items.write" s))
  unfolding has_scope trim_space
  has_scope_lem s h = ground (
    arith,
    scopes_any (λ c. str_eq (trim_space c) s),
    ap (λ c. str_eq c s) trims,
    tree_ne_plain (tree_scope uuid_text top) s (tree_scope-is_tree uuid_text top) h,
  )

  lacks :
      (has_scope t "work_items.read_all" ≡ false)
      × (has_scope t "work_items.write_all" ≡ false)
      × (has_scope t "work_items.create" ≡ false)
      × (has_scope t "policy_profile.switch" ≡ false)
      × (has_scope t "registry.write" ≡ false)
      × (has_scope t "approvals.decide" ≡ false)
  unfolding is_tree_scope strip_prefix?
  lacks = (
    has_scope_lem "work_items.read_all" refl ∙ ground arith,
    has_scope_lem "work_items.write_all" refl ∙ ground arith,
    has_scope_lem "work_items.create" refl ∙ ground arith,
    has_scope_lem "policy_profile.switch" refl ∙ ground arith,
    has_scope_lem "registry.write" refl ∙ ground arith,
    has_scope_lem "approvals.decide" refl ∙ ground arith,
  )

  reads : has_scope t "work_items.read" ≡ true
  unfolding is_tree_scope strip_prefix?
  reads = has_scope_lem "work_items.read" refl ∙ ground arith

  writes_iff : has_scope t "work_items.write" ≡ info.writes
  unfolding is_tree_scope strip_prefix?
  writes_iff = has_scope_lem "work_items.write" refl ∙ ground arith

  is_scoped : requires_scoped_policy t ≡ true
  unfolding legacy_unscoped trim_space
  is_scoped = ground (arith, plain, scopes_any (λ scope. not (str_eq (trim_space scope) "")))

  roots_any :
      (id : Uuid) (scopes : List String)
      → contains_id (tree_roots parse scopes) id
        ≡ any (λ scope. contains_id (root_of parse (trim_space scope) []) id) scopes
  unfolding tree_roots
  roots_any id [] = refl
  roots_any id (s ∷ ss) = ground (arith, roots_any id ss)

  tree_part :
      (id : Uuid)
      → contains_id (root_of parse (trim_space (tree_scope uuid_text top)) []) id ≡ (top == id)
  tree_part id =
      rw trims
        (ground (arith, strip-tree_scope uuid_text top, parses, root-ne-nil uuid_text req granted))

  contains-roots : (id : Uuid) → contains_id (tree_roots parse t.scopes) id ≡ (top == id)
  unfolding trim_space strip_prefix?
  contains-roots id =
      roots_any id t.scopes
      ∙ (scopes_any (λ scope. contains_id (root_of parse (trim_space scope) []) id)
          ∙ ground (arith, tree_part id))

  same_tree : (id : Uuid) → InTree rel (tree_roots parse t.scopes) id ↔ InTree rel (top ∷ []) id
  same_tree id = (
    InTree-mono rel (tree_roots parse t.scopes) (top ∷ [])
        (λ x k. ground (arith, contains-roots x)),
    InTree-mono rel (top ∷ []) (tree_roots parse t.scopes)
        (λ x k. ground (arith, contains-roots x)),
  )

  readable : can_read_work_items (scope_set t.scopes) ≡ true
  unfolding can_read_work_items
  readable = ground (arith, contains-scopes t "work_items.read" refl, reads)

  writable : can_write_work_items (scope_set t.scopes) ≡ info.writes
  unfolding can_write_work_items
  writable = ground (
    arith,
    contains-scopes t "work_items.write" refl,
    contains-scopes t "work_items.write_all" refl,
    writes_iff,
    lacks.1,
  )

  writes_worker : info.writes ≡ true → req.template ≡ same_tree_worker
  writes_worker h = worker_writes uuid_text req.template top (
      subst (λ w. template_scope_set uuid_text req.template top ≡ some (info.granted, w)) h
        info.template)

  refused :
      (id : Uuid) → info.writes ≡ false → can_write_work_item parse (some rel) t id ≡ err denied
  unfolding can_write_work_item
  refused id h = ground (arith, is_scoped, lacks.1, writable)

  -- A token that carries the scopes of a granted request, and is not root, reads exactly the work
  -- items of the tree below the requested root. It writes none, or it writes exactly those and the
  -- grant was of the worker template with a human's approval. It creates none at the top, and is
  -- not shown the tools that decide approvals, switch the policy profile or define tropisms.
  pub granted_token-stays :
      ((id : Uuid) → (can_read_work_item parse (some rel) t id ≡ ok tt) ↔ InTree rel (top ∷ []) id)
      × (((id : Uuid) → can_write_work_item parse (some rel) t id ≡ err denied)
          ⊎ ((req.template ≡ same_tree_worker)
              × (req.human_review_status ≡ HumanReviewStatus.approved)
              × ((id : Uuid)
                  → (can_write_work_item parse (some rel) t id ≡ ok tt)
                    ↔ InTree rel (top ∷ []) id)))
      × (can_create_work_item t ≡ err denied)
      × (tool_visible parse t "approvals.decide" ≡ false)
      × (tool_visible parse t "policy_profile.switch" ≡ false)
      × (tool_visible parse t "registry.define_tropism" ≡ false)
  unfolding can_create_work_item tool_visible
  granted_token-stays =
      let seen = filter_work_items-visible parse rel t [] is_scoped lacks.0 lacks.1 readable in
      (
        λ id.
            let (to, from) = seen.3 id in
            let (up, down) = same_tree id in (λ h. up (to h), λ i. from (down i)),
        elim (Bool-cases info.writes) [
          | inr e ↦ inl (λ id. refused id e)
          | inl e ↦ inr (
            writes_worker e,
            (reduce-guards uuid_text req granted).9 (writes_worker e),
            λ id.
                let (to, from) =
                  can_write_work_item_iff parse rel t id is_scoped lacks.1 (writable ∙ e) in
                let (up, down) = same_tree id in (λ h. up (to h), λ i. from (down i)),
          )
        ],
        ground (arith, is_scoped, lacks.2, lacks.1),
        ground (arith, is_scoped, lacks.5),
        ground (arith, is_scoped, lacks.3),
        ground (arith, is_scoped, lacks.4),
      )
