-- ===== src/Grants/Trees.antt =====
-- The work item tree of a grant.
use meristem.Base.{
  String, Bool, true, false, some, List, [], ◌∷◌, ◌≡◌, refl, arith, sym, ◌∙◌, contains,
  contains-sort_strings, str_eq, eq_iff, eq_refl, ap, Bool-cases, inl, inr, strip_prefix?,
}
use meristem.Domain.{Uuid}
use meristem.Grants.{
  scope_feed_read_assigned, scope_work_items_read, scope_work_items_write, Template, Request, same,
  grant, reduce, template_scope_set, parent_covers_template, parent_tree_ok, scope_set,
  is_tree_scope, tree_scope,
}
use meristem.Grants.Safety.{reduce-IsGranted, contains-scope_set}

pub plain_ne_tree :
    (c s : String) → is_tree_scope c ≡ false → is_tree_scope s ≡ true → str_eq c s ≡ false
plain_ne_tree c s h t = elim (Bool-cases (str_eq c s)) [
  | inl e ↦ cc (h, t, ap is_tree_scope ((eq_iff c s).0 e))
  | inr e ↦ e
]

plain_scopes :
    (is_tree_scope scope_feed_read_assigned ≡ false)
    × (is_tree_scope scope_work_items_read ≡ false)
    × (is_tree_scope scope_work_items_write ≡ false)
unfolding is_tree_scope strip_prefix?
plain_scopes = (refl, refl, refl)

module _ (uuid_text : Uuid → String) where
  tree_only :
      (template : Template) (root : Uuid) (s : String) {scopes : List String} {writes : Bool}
      → template_scope_set uuid_text template root ≡ some (scopes, writes)
      → contains scopes s ≡ true
      → is_tree_scope s ≡ true
      → s ≡ tree_scope uuid_text root
  unfolding template_scope_set
  tree_only template root s h k t = ground (
    arith,
    plain_ne_tree scope_feed_read_assigned s plain_scopes.0 t,
    plain_ne_tree scope_work_items_read s plain_scopes.1 t,
    plain_ne_tree scope_work_items_write s plain_scopes.2 t,
    eq_iff (tree_scope uuid_text root) s,
  )

  has_tree :
      (template : Template) (root : Uuid) {scopes : List String} {writes : Bool}
      → template_scope_set uuid_text template root ≡ some (scopes, writes)
      → contains scopes (tree_scope uuid_text root) ≡ true
  unfolding template_scope_set
  has_tree template root h = ground (arith, eq_refl (tree_scope uuid_text root))

  parent_tree_same :
      (parent : List String) (root : Uuid)
      → parent_tree_ok uuid_text parent root same ≡ contains parent (tree_scope uuid_text root)
  unfolding parent_tree_ok
  parent_tree_same [] root = refl
  parent_tree_same (s ∷ ss) root = ground (arith, parent_tree_same ss root)

  -- A grant carries the tree scope of the requested root and no other tree scope; if the root is
  -- said to be the parent's own, the parent token has that very tree scope.
  pub reduce-tree :
      (req : Request)
      → (reduce uuid_text req).disposition ≡ grant
      → (contains (reduce uuid_text req).scopes (tree_scope uuid_text req.requested_tree_root)
          ≡ true)
        × ((s : String)
            → contains (reduce uuid_text req).scopes s ≡ true
            → is_tree_scope s ≡ true
            → s ≡ tree_scope uuid_text req.requested_tree_root)
        × (req.tree_relation ≡ same
            → contains req.parent.scopes (tree_scope uuid_text req.requested_tree_root) ≡ true)
  unfolding parent_covers_template
  reduce-tree req h =
      let root = req.requested_tree_root in
      let g = reduce-IsGranted uuid_text req h in
      (
        ap (λ xs. contains xs (tree_scope uuid_text root)) g.sorted
            ∙ (contains-sort_strings g.granted (tree_scope uuid_text root)
                ∙ has_tree req.template root g.template),
        λ s k t.
            tree_only req.template root s g.template
              (sym (contains-sort_strings g.granted s) ∙ (rw (← g.sorted) k)) t,
        λ e.
            sym (contains-scope_set req.parent.scopes (tree_scope uuid_text root))
            ∙ (sym (parent_tree_same (scope_set req.parent.scopes) root)
                ∙ (rw (← e) (ground (arith, g.covered)))),
      )
