-- ===== src/Grants/Safety.antt =====
-- A grant never gives more than the parent token holds, and only where every guard passed.
use meristem.Base.{
  ◌≤◌, String, Bool, true, false, Option, none, some, List, [], ◌∷◌, ◌≡◌, ◌≢◌, ◌⊎◌, refl, arith,
  sym, ap, ◌∙◌, Bool-cases, inl, inr, all_at, contains, contains-sort_strings, str_eq, eq_iff,
  sort_strings,
}
use meristem.Domain.{Uuid, Source, HumanReviewStatus}
use meristem.Grants.{
  Template, Request, Decision, grant, same, descendant, reduce, reduce_template, template_scope_set,
  parent_covers_template, covers_scope, scope_set, is_tree_scope, contains_logs_scope,
  scope_feed_read, scope_feed_read_assigned,
}

module _ (uuid_text : Uuid → String) where
  -- A granted request comes from a live scoped agent token that is not root, asks for no approval
  -- authority and no logs scope, names a tree root at or below the parent's within the depth
  -- budget where the depth is known, and, if a worker template, was approved by a human.
  pub reduce-guards :
      (req : Request)
      → (reduce uuid_text req).disposition ≡ grant
      → (req.parent.id ≢ 0)
        × (req.parent.revoked_at ≡ none)
        × (req.parent.is_root ≡ false)
        × (req.parent.source ≡ Source.agent)
        × (req.parent.scopes ≢ [])
        × (req.approval_authority ≡ false)
        × (contains_logs_scope req.requested_scopes ≡ false)
        × ((req.tree_relation ≡ same) ⊎ (req.tree_relation ≡ descendant))
        × (req.delegation_depth_known ≡ true → req.delegation_depth ≤ req.max_delegation_depth)
        × (req.template ≡ Template.same_tree_worker
            → req.human_review_status ≡ HumanReviewStatus.approved)
  unfolding reduce template_scope_set
  reduce-guards req h = ground arith

pub contains-scope_set : (ss : List String) (s : String) → contains (scope_set ss) s ≡ contains ss s
unfolding scope_set
contains-scope_set [] s = refl
contains-scope_set (t ∷ ts) s = elim (Bool-cases (str_eq t s)) [
  | inl e ↦
      ground (arith, e, contains-scope_set ts s, ap (contains (scope_set ts)) ((eq_iff t s).0 e))
  | inr e ↦ ground (arith, e, contains-scope_set ts s)
]

module _ (uuid_text : Uuid → String) where
  -- What a granted template comes with.
  pub record IsGranted (req : Request) (o : Option (List String × Bool)) (d : Decision)
      : Type 0 where
    pub granted : List String
    pub writes : Bool
    pub template : o ≡ some (granted, writes)
    pub covered :
        parent_covers_template uuid_text req.parent.scopes granted req.requested_tree_root
          req.tree_relation
        ≡ true
    pub sorted : d.scopes ≡ sort_strings granted

  reduce_template-IsGranted :
      (req : Request) (o : Option (List String × Bool))
      → (reduce_template uuid_text req o).disposition ≡ grant
      → IsGranted req o (reduce_template uuid_text req o)
  unfolding reduce_template
  reduce_template-IsGranted req none h = cc
  reduce_template-IsGranted req (some (scopes, writes)) h = record {
    granted = scopes;
    writes = writes;
    template = refl;
    covered = ground arith;
    sorted = ground arith;
  }

  reduce-eq-template :
      (req : Request)
      → (reduce uuid_text req).disposition ≡ grant
      → reduce uuid_text req
        ≡ reduce_template uuid_text req
            (template_scope_set uuid_text req.template req.requested_tree_root)
  unfolding reduce
  reduce-eq-template req h = ground arith

  pub reduce-IsGranted :
      (req : Request)
      → (reduce uuid_text req).disposition ≡ grant
      → IsGranted req
          (template_scope_set uuid_text req.template req.requested_tree_root)
          (reduce uuid_text req)
  reduce-IsGranted req h =
      let e = reduce-eq-template req h in
      rw e (
        reduce_template-IsGranted req
          (template_scope_set uuid_text req.template req.requested_tree_root) (rw (← e) h))

  covers_scope_lem :
      (parent : List String) (s : String)
      → covers_scope uuid_text (scope_set parent) s ≡ true
      → is_tree_scope s ≡ false
      → (contains parent s ≡ true)
        ⊎ ((s ≡ scope_feed_read_assigned) × (contains parent scope_feed_read ≡ true))
  unfolding covers_scope
  covers_scope_lem parent s h t = ground (
    arith,
    contains-scope_set parent s,
    contains-scope_set parent scope_feed_read,
    eq_iff s scope_feed_read_assigned,
  )

  granted_covered :
      (req : Request) (s : String) {o : Option (List String × Bool)} {d : Decision}
      → IsGranted req o d
      → contains d.scopes s ≡ true
      → covers_scope uuid_text (scope_set req.parent.scopes) s ≡ true
  unfolding parent_covers_template
  granted_covered req s g k =
      all_at (covers_scope uuid_text (scope_set req.parent.scopes)) g.granted s
        (ground (arith, g.covered)) (sym (contains-sort_strings g.granted s) ∙ (rw (← g.sorted) k))

  -- Each scope that Reduce grants, but the tree scopes, is a scope of the parent token, or it is
  -- feed.read_assigned and the parent has feed.read.
  pub reduce-subset :
      (req : Request) (s : String)
      → (reduce uuid_text req).disposition ≡ grant
      → contains (reduce uuid_text req).scopes s ≡ true
      → is_tree_scope s ≡ false
      → (contains req.parent.scopes s ≡ true)
        ⊎ ((s ≡ scope_feed_read_assigned) × (contains req.parent.scopes scope_feed_read ≡ true))
  reduce-subset req s h k t =
      let g = reduce-IsGranted req h in
      covers_scope_lem req.parent.scopes s (granted_covered req s g k) t
