-- ===== src/Access/Filters.antt =====
-- What the filters and the checks of internal/access/access.go let a scoped token through to.
use meristem.Base.{
  String, Bool, true, false, Option, some, List, [], ◌∷◌, map, ◌≡◌, ◌↔◌, refl, sym, ◌∙◌, ap, ◌==◌,
  ==_iff, arith, any, any-append, select, contains_id, Bool-cases, inl, inr,
}
use meristem.Domain.{Uuid, Token, WorkItem}
use meristem.WorkItems.Ancestry.{Relations}
use meristem.Access.{
  Access, ok, FeedItem, tree_roots, filter_work_items, can_read_work_item, can_write_work_item,
  filter_feed_items, all_anchors, feed_item_anchors, scope_set, has_scope, can_read_work_items,
  can_write_work_items, requires_scoped_policy, require_in_tree, require,
}
use meristem.Access.Tree.{InTree, subtree_iff, sees, in_any_tree, select_agree}

module _ (parse : String → Option Uuid) (rel : Relations) (actor : Token) where
  -- The check of one identifier passes exactly in the tree.
  required_iff :
      (id : Uuid)
      → (require_in_tree parse (some rel) actor id ≡ ok tt)
        ↔ InTree rel (tree_roots parse actor.scopes) id
  required_iff id =
      let (v, e, agree) = in_any_tree parse rel actor (id ∷ []) in
      let seen = agree id (ground (arith, (==_iff id id).1 refl)) in
      let tree = subtree_iff rel (tree_roots parse actor.scopes) id in
      (λ h. tree.0 (sym seen ∙ passes _ v e h), λ t. passed _ v e (seen ∙ tree.1 t))
    where
      passes :
          (a : Access (List Uuid)) (v : List Uuid)
          → a ≡ ok v
          → require a id ≡ ok tt
          → contains_id v id ≡ true
      passes a v e h = ground arith

      passed :
          (a : Access (List Uuid)) (v : List Uuid)
          → a ≡ ok v
          → contains_id v id ≡ true
          → require a id ≡ ok tt
      passed a v e h = ground arith

  can_read-scoped :
      (id : Uuid)
      → requires_scoped_policy actor ≡ true
      → has_scope actor "work_items.read_all" ≡ false
      → has_scope actor "work_items.write_all" ≡ false
      → can_read_work_items (scope_set actor.scopes) ≡ true
      → can_read_work_item parse (some rel) actor id ≡ require_in_tree parse (some rel) actor id
  unfolding can_read_work_item
  can_read-scoped id s ra wa r = ground arith

  can_write-scoped :
      (id : Uuid)
      → requires_scoped_policy actor ≡ true
      → has_scope actor "work_items.write_all" ≡ false
      → can_write_work_items (scope_set actor.scopes) ≡ true
      → can_write_work_item parse (some rel) actor id ≡ require_in_tree parse (some rel) actor id
  unfolding can_write_work_item
  can_write-scoped id s wa w = ground arith

  -- For a token that is neither root nor unscoped, has no scope for all items and a scope to read,
  -- FilterWorkItems keeps, in order, exactly the items in the trees below the token's tree scopes,
  -- and CanReadWorkItem passes for exactly the identifiers in them.
  pub filter_work_items-visible :
      (items : List WorkItem)
      → requires_scoped_policy actor ≡ true
      → has_scope actor "work_items.read_all" ≡ false
      → has_scope actor "work_items.write_all" ≡ false
      → can_read_work_items (scope_set actor.scopes) ≡ true
      → (visible : Uuid → Bool) × ((id : Uuid)
          → (visible id ≡ true) ↔ InTree rel (tree_roots parse actor.scopes) id)
        × (filter_work_items parse (some rel) actor items
            ≡ ok (select (λ item. visible item.id) items))
        × ((id : Uuid)
            → (can_read_work_item parse (some rel) actor id ≡ ok tt)
              ↔ InTree rel (tree_roots parse actor.scopes) id)
  unfolding filter_work_items
  filter_work_items-visible items s ra wa r =
      let (v, e, agree) = in_any_tree parse rel actor (map (λ item. item.id) items) in
      let same =
        select_agree (λ (item : WorkItem). item.id) (contains_id v) (sees parse rel actor) items
          agree in
      (
        sees parse rel actor,
        subtree_iff rel (tree_roots parse actor.scopes),
        ground (arith, e, same),
        λ id. rw (can_read-scoped id s ra wa r) (required_iff id),
      )

  pub can_write_work_item_iff :
      (id : Uuid)
      → requires_scoped_policy actor ≡ true
      → has_scope actor "work_items.write_all" ≡ false
      → can_write_work_items (scope_set actor.scopes) ≡ true
      → (can_write_work_item parse (some rel) actor id ≡ ok tt)
        ↔ InTree rel (tree_roots parse actor.scopes) id
  can_write_work_item_iff id s wa w = rw (can_write-scoped id s wa w) (required_iff id)

  abbrev pub Anchored : FeedItem → Type 0
  Anchored item =
      (id : Uuid) × (contains_id (feed_item_anchors item) id ≡ true)
      × InTree rel (tree_roots parse actor.scopes) id

  any_seen :
      (v ids : List Uuid)
      → ((id : Uuid) → contains_id ids id ≡ true → contains_id v id ≡ sees parse rel actor id)
      → any (contains_id v) ids ≡ any (sees parse rel actor) ids
  any_seen v [] h = refl
  any_seen v (x ∷ xs) h = ground (
    arith,
    h x (ground (arith, (==_iff x x).1 refl)),
    any_seen v xs (λ id k. h id (ground (arith, k))),
  )

  kept :
      (v : List Uuid) (items : List FeedItem)
      → ((id : Uuid)
          → contains_id (all_anchors items) id ≡ true
          → contains_id v id ≡ sees parse rel actor id)
      → select (λ item. any (contains_id v) (feed_item_anchors item)) items
        ≡ select (λ item. any (sees parse rel actor) (feed_item_anchors item)) items
  unfolding all_anchors
  kept v [] h = refl
  kept v (item ∷ items) h =
      let split =
        λ (id : Uuid). any-append (λ x. x == id) (feed_item_anchors item) (all_anchors items) in
      ground (
        arith,
        any_seen v (feed_item_anchors item) (λ id k. h id (ground (arith, split id, k))),
        kept v items (λ id k. h id (ground (arith, split id, k))),
      )

  anchored_iff :
      (ids : List Uuid)
      → (any (sees parse rel actor) ids ≡ true) ↔ (
          (id : Uuid) × (contains_id ids id ≡ true) × InTree rel (tree_roots parse actor.scopes) id)
  anchored_iff ids = (to ids, λ (id, c, t). from ids id c ((subtree_iff rel _ id).1 t))
    where
      to :
          (xs : List Uuid)
          → any (sees parse rel actor) xs ≡ true
          → (id : Uuid) × (contains_id xs id ≡ true) × InTree rel (tree_roots parse actor.scopes) id
      to [] h = absurd cc
      to (x ∷ xs) h = elim (Bool-cases (sees parse rel actor x)) [
        | inl e ↦ (x, ground (arith, (==_iff x x).1 refl), (subtree_iff rel _ x).0 e)
        | inr e ↦ let (id, c, t) = to xs (ground (arith, e)) in (id, ground (arith, c), t)
      ]

      from :
          (xs : List Uuid) (id : Uuid)
          → contains_id xs id ≡ true
          → sees parse rel actor id ≡ true
          → any (sees parse rel actor) xs ≡ true
      from [] id h k = cc
      from (x ∷ xs) id h k = elim (Bool-cases (x == id)) [
        | inl e ↦ ground (arith, ap (sees parse rel actor) ((==_iff x id).0 e))
        | inr e ↦ ground (arith, e, from xs id)
      ]

  -- For a token that is neither root nor unscoped, with feed.read_assigned and without feed.read,
  -- FilterFeedItems keeps, in order, exactly the items that have an anchor in the trees below the
  -- token's tree scopes.
  pub filter_feed_items-visible :
      (items : List FeedItem)
      → requires_scoped_policy actor ≡ true
      → has_scope actor "feed.read" ≡ false
      → has_scope actor "feed.read_assigned" ≡ true
      → (visible : FeedItem → Bool) × ((item : FeedItem) → (visible item ≡ true) ↔ Anchored item)
        × (filter_feed_items parse (some rel) actor items ≡ ok (select visible items))
  unfolding filter_feed_items
  filter_feed_items-visible items s f a =
      let (v, e, agree) = in_any_tree parse rel actor (all_anchors items) in
      (
        λ item. any (sees parse rel actor) (feed_item_anchors item),
        λ item. anchored_iff (feed_item_anchors item),
        ground (arith, e, kept v items agree),
      )
