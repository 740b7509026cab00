-- ===== src/Access/Tree.antt =====
-- The recursive query of internal/access/access.go finds exactly the tree below the roots, and what
-- a scoped token reads and writes is that tree.
use meristem.Base.{
  ℕ, zero, suc, String, Bool, true, false, ◌&&◌, ◌||◌, not, Option, some, List, [], ◌∷◌, ◌++◌, map,
  ◌≡◌, ◌↔◌, inl, inr, refl, sym, ◌∙◌, ap, ◌==◌, ==_iff, arith, select, contains_id, is_empty,
  length, count_if-le-length, Bool-cases, if◌then◌else◌,
}
use meristem.Domain.{Uuid, Token}
use meristem.WorkItems.Projectors.{has_relation}
use meristem.WorkItems.Ancestry.{Relations, fresh, close, parents_of}
use meristem.WorkItems.Ancestry.Decides.{
  contains-fresh, contains-append, parents_of-child, IsOpenAt, IsClosed, close-IsClosed,
  close-keeps,
}
use meristem.Access.{ok, turned, subtree, tree_roots, work_items_in_any_tree}

-- A root, or a child of such, and so on.
pub data InTree (rel : Relations) (roots : List Uuid) : Uuid → Type 0 where
  at_root : {id : Uuid} → contains_id roots id ≡ true → InTree rel roots id
  below : {p c : Uuid} → InTree rel roots p → has_relation rel p c ≡ true → InTree rel roots c

has_relation-turned :
    (rel : Relations) (a b : Uuid) → has_relation (turned rel) a b ≡ has_relation rel b a
unfolding turned
has_relation-turned [] a b = refl
has_relation-turned (r ∷ rs) a b = ground (arith, has_relation-turned rs a b)

length-turned : (rel : Relations) → length (turned rel) ≡ length rel
unfolding turned
length-turned [] = refl
length-turned (r ∷ rs) = ap suc (length-turned rs)

module _ (rel : Relations) (P : Uuid → Type 0)
    (step : (p y : Uuid) → has_relation rel p y ≡ true → P y → P p) where
  -- What holds of the first rows and passes to parents holds of all rows.
  close_within :
      (n : ℕ) (working seen : List Uuid)
      → ((p : Uuid) → contains_id working p ≡ true → P p)
      → ((p : Uuid) → contains_id seen p ≡ true → P p)
      → (p : Uuid) → contains_id (close n rel working seen) p ≡ true
      → P p
  unfolding close
  close_within zero working seen hw hs p k = hs p k
  close_within (suc n) working seen hw hs p k =
      let new = fresh seen (parents_of rel working) in
      let hn : (q : Uuid) → contains_id new q ≡ true → P q = λ q c.
        let (y, r, w) =
          parents_of-child rel working q
            (ground (arith, c, contains-fresh seen (parents_of rel working) q)) in
        step q y r (hw y w) in
      close_within n new (new ++ seen) hn
        (λ q c. elim (Bool-cases (contains_id new q)) [
          | inl e ↦ hn q e
          | inr e ↦ hs q (ground (arith, e, contains-append new seen q))
        ])
        p k

module _ (rel : Relations) (roots : List Uuid) where
  abbrev first_rows : List Uuid
  first_rows = fresh [] roots

  first_row : (p : Uuid) → contains_id first_rows p ≡ contains_id roots p
  first_row p = ground (arith, contains-fresh [] roots p)

  subtree-InTree : (id : Uuid) → contains_id (subtree rel roots) id ≡ true → InTree rel roots id
  unfolding subtree
  subtree-InTree id h =
      let start : (p : Uuid) → contains_id first_rows p ≡ true → InTree rel roots p =
        λ p k. at_root (sym (first_row p) ∙ k) in
      close_within (turned rel) (InTree rel roots)
        (λ p y r t. below t (sym (has_relation-turned rel p y) ∙ r)) (length rel) first_rows
        first_rows start start id h

  subtree-IsClosed : IsClosed (turned rel) (subtree rel roots)
  unfolding subtree IsOpenAt
  subtree-IsClosed =
      close-IsClosed (turned rel) (length rel) first_rows first_rows (λ p y r k. inl k)
        (rw (← length-turned rel)
          (count_if-le-length (λ r. not (contains_id first_rows r.0)) (turned rel)))

  root_kept : (p : Uuid) → contains_id roots p ≡ true → contains_id (subtree rel roots) p ≡ true
  unfolding subtree
  root_kept p k = close-keeps (turned rel) (length rel) first_rows first_rows p (first_row p ∙ k)

  InTree-subtree : {id : Uuid} → InTree rel roots id → contains_id (subtree rel roots) id ≡ true
  InTree-subtree (at_root h) = root_kept _ h
  InTree-subtree (below {p} {c} t r) =
      subtree-IsClosed c p (has_relation-turned rel c p ∙ r) (InTree-subtree t)

  pub subtree_iff : (id : Uuid) → (contains_id (subtree rel roots) id ≡ true) ↔ InTree rel roots id
  subtree_iff id = (subtree-InTree id, InTree-subtree)

no_roots : (rel : Relations) (id : Uuid) → contains_id (subtree rel []) id ≡ false
no_roots rel id = elim (Bool-cases (contains_id (subtree rel []) id)) [
  | inl e ↦ absurd (nowhere (subtree-InTree rel [] id e))
  | inr e ↦ e
]
  where
    nowhere : {x : Uuid} → InTree rel [] x → ⊥
    nowhere (at_root h) = cc
    nowhere (below t r) = nowhere t

contains-select :
    (f : Uuid → Bool) (ids : List Uuid) (id : Uuid)
    → contains_id (select f ids) id ≡ (contains_id ids id && f id)
contains-select f [] id = refl
contains-select f (x ∷ xs) id = elim (Bool-cases (x == id)) [
  | inl e ↦ ground (arith, e, contains-select f xs id, ap f ((==_iff x id).0 e))
  | inr e ↦ ground (arith, e, contains-select f xs id)
]

pub select_agree {ℓ} :
    {A : Type ℓ} (key : A → Uuid) (f g : Uuid → Bool) (xs : List A)
    → ((id : Uuid) → contains_id (map key xs) id ≡ true → f id ≡ g id)
    → select (λ x. f (key x)) xs ≡ select (λ x. g (key x)) xs
select_agree key f g [] h = refl
select_agree key f g (x ∷ xs) h =
    let tail = select_agree key f g xs (λ id k. h id (ground (arith, k))) in
    ground (arith, tail, h (key x) (ground (arith, (==_iff (key x) (key x)).1 refl)))

module _ (parse : String → Option Uuid) (rel : Relations) (actor : Token) where
  -- The recursive query under the token's roots.
  abbrev pub sees : Uuid → Bool
  sees = contains_id (subtree rel (tree_roots parse actor.scopes))

  pub in_any_tree :
      (ids : List Uuid)
      → (v : List Uuid) × (work_items_in_any_tree parse (some rel) actor ids ≡ ok v)
        × ((id : Uuid) → contains_id ids id ≡ true → contains_id v id ≡ sees id)
  unfolding work_items_in_any_tree
  in_any_tree ids = split (tree_roots parse actor.scopes) ids
    where
      split :
          (roots ids : List Uuid)
          → (v : List Uuid) × ((if is_empty roots || is_empty ids
                then ok []
                else ok (select (contains_id (subtree rel roots)) ids))
              ≡ ok v)
            × ((id : Uuid)
                → contains_id ids id ≡ true
                → contains_id v id ≡ contains_id (subtree rel roots) id)
      split [] ids = ([], refl, λ id h. sym (no_roots rel id))
      split (r ∷ rs) [] = ([], refl, λ id h. absurd cc)
      split (r ∷ rs) (i ∷ is) = (
        select (contains_id (subtree rel (r ∷ rs))) (i ∷ is),
        refl,
        λ id h. contains-select (contains_id (subtree rel (r ∷ rs))) (i ∷ is) id ∙ (rw h),
      )
