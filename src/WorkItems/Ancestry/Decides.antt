-- ===== src/WorkItems/Ancestry/Decides.antt =====
-- The query finds exactly the ancestors: its rounds suffice, and each of its rows is one.
use meristem.Base.{
  ℕ, zero, suc, ◌≤◌, ◌<◌, Bool, true, ◌&&◌, ◌||◌, not, List, [], ◌∷◌, ◌++◌, ◌≡◌, ◌↔◌, ◌⊎◌, inl, inr,
  refl, sym, ◌==◌, ==_iff, arith, any, any-append, contains_id, length, count_if,
  count_if-le-length, count_if-lt, any_of_count_if, Bool-cases, subst, ap,
}
use meristem.Domain.{Uuid}
use meristem.WorkItems.Projectors.{has_relation}
use meristem.WorkItems.Ancestry.{
  Relations, parents_of, fresh, close, ancestry, child_is_ancestor_of, Ancestor, parent, above,
}

pub contains-fresh :
    (seen xs : List Uuid) (p : Uuid)
    → contains_id (fresh seen xs) p ≡ (contains_id xs p && not (contains_id seen p))
contains-fresh seen [] p = refl
contains-fresh seen (x ∷ xs) p = elim (Bool-cases (x == p)) [
  | inl e ↦ ground (
    arith,
    e,
    contains-fresh seen xs p,
    ap (contains_id seen) ((==_iff x p).0 e),
    ap (contains_id (fresh seen xs)) ((==_iff x p).0 e),
  )
  | inr e ↦ ground (arith, e, contains-fresh seen xs p)
]

pub contains-parents_of :
    (rel : Relations) (ids : List Uuid) (p y : Uuid)
    → has_relation rel p y ≡ true
    → contains_id ids y ≡ true
    → contains_id (parents_of rel ids) p ≡ true
contains-parents_of [] ids p y h k = cc
contains-parents_of (r ∷ rs) ids p y h k = elim (Bool-cases (r.0 == p && r.1 == y)) [
  | inl e ↦ ground (arith, e, ap (contains_id ids) ((==_iff r.1 y).0 (ground (arith, e))))
  | inr e ↦ ground (arith, e, contains-parents_of rs ids p y)
]

pub parents_of-child :
    (rel : Relations) (ids : List Uuid) (p : Uuid)
    → contains_id (parents_of rel ids) p ≡ true
    → (y : Uuid) × (has_relation rel p y ≡ true) × (contains_id ids y ≡ true)
parents_of-child [] ids p h = cc
parents_of-child (r ∷ rs) ids p h = elim (Bool-cases (contains_id ids r.1 && r.0 == p)) [
  | inl e ↦ (r.1, ground (arith, e), ground (arith, e))
  | inr e ↦
      let (y, a, b) = parents_of-child rs ids p (ground (arith, e)) in (y, ground (arith, a), b)
]

-- How many relations have a parent that is not among the rows.
abbrev pub open_parents : Relations → List Uuid → ℕ
open_parents rel seen = count_if (λ r. not (contains_id seen r.0)) rel

pub contains-append :
    (xs ys : List Uuid) (p : Uuid)
    → contains_id (xs ++ ys) p ≡ (contains_id xs p || contains_id ys p)
contains-append xs ys p = any-append (λ x. x == p) xs ys

any_parent :
    (rel : Relations) (p y : Uuid) (f : Uuid → Bool)
    → has_relation rel p y ≡ true
    → f p ≡ true
    → any (λ r. f r.0) rel ≡ true
any_parent [] p y f h k = cc
any_parent (r ∷ rs) p y f h k = elim (Bool-cases (r.0 == p)) [
  | inl e ↦ ground (arith, ap f ((==_iff r.0 p).0 e))
  | inr e ↦ ground (arith, e, any_parent rs p y f)
]

module _ (rel : Relations) where
  -- A round with a new row leaves fewer open parents.
  open_parents-fall :
      (working seen : List Uuid) (x : Uuid)
      → contains_id (fresh seen (parents_of rel working)) x ≡ true
      → open_parents rel (fresh seen (parents_of rel working) ++ seen) < open_parents rel seen
  open_parents-fall working seen x h =
      let new = fresh seen (parents_of rel working) in
      let c = contains-fresh seen (parents_of rel working) x in
      let (y, rp, w) = parents_of-child rel working x (ground (arith, c)) in
      count_if-lt (λ r. not (contains_id seen r.0)) (λ r. not (contains_id (new ++ seen) r.0)) rel
        (λ r k. ground (arith, contains-append new seen r.0))
        (any_parent rel x y
          (λ z. not (contains_id seen z) && not (not (contains_id (new ++ seen) z))) rp
          (ground (arith, c, contains-append new seen x)))

  -- The rows so far hold the parents of all rows but those of the last round.
  unfoldable pub IsOpenAt : List Uuid → List Uuid → Type 0
  IsOpenAt working seen =
      (p y : Uuid)
      → has_relation rel p y ≡ true
      → contains_id seen y ≡ true
      → (contains_id working y ≡ true) ⊎ (contains_id seen p ≡ true)

  abbrev pub IsClosed : List Uuid → Type 0
  IsClosed seen =
      (p y : Uuid)
      → has_relation rel p y ≡ true
      → contains_id seen y ≡ true
      → contains_id seen p ≡ true

  IsOpenAt-round :
      (working seen : List Uuid)
      → IsOpenAt working seen
      → let new = fresh seen (parents_of rel working) in IsOpenAt new (new ++ seen)
  unfolding IsOpenAt
  IsOpenAt-round working seen h p y r k =
      let new = fresh seen (parents_of rel working) in
      let cy = contains-append new seen y in
      let cp = contains-append new seen p in
      elim (Bool-cases (contains_id new y)) [
        | inl e ↦ inl e
        | inr e ↦ elim (h p y r (ground (arith, e, cy))) [
          | inl w ↦ inr (
              ground (
                arith,
                cp,
                contains-fresh seen (parents_of rel working) p,
                contains-parents_of rel working p y r w,
              ))
          | inr s ↦ inr (ground (arith, cp, s))
        ]
      ]

  parents_of-nil : (rs : Relations) → parents_of rs [] ≡ []
  parents_of-nil [] = refl
  parents_of-nil (r ∷ rs) = parents_of-nil rs

  close-nil : (n : ℕ) (seen : List Uuid) → close n rel [] seen ≡ seen
  unfolding close
  close-nil zero seen = refl
  close-nil (suc n) seen = rw (parents_of-nil rel) (close-nil n seen)

  IsClosed-of_none : (seen : List Uuid) → open_parents rel seen ≡ 0 → IsClosed seen
  IsClosed-of_none seen h p y r k = elim (Bool-cases (contains_id seen p)) [
    | inl e ↦ e
    | inr e ↦ cc (
      any_of_count_if (λ r. not (contains_id seen r.0)) rel h,
      any_parent rel p y (λ z. not (contains_id seen z)) r (ground (arith, e)),
    )
  ]

  IsClosed-of_last : (seen : List Uuid) → IsOpenAt [] seen → IsClosed seen
  unfolding IsOpenAt
  IsClosed-of_last seen h p y r k = elim (h p y r k) [ inl e ↦ cc | inr s ↦ s ]

  -- Enough rounds close the rows under parents.
  pub close-IsClosed :
      (n : ℕ) (working seen : List Uuid)
      → IsOpenAt working seen
      → open_parents rel seen ≤ n
      → IsClosed (close n rel working seen)
  unfolding close
  close-IsClosed zero working seen h le = IsClosed-of_none seen (omega arith)
  close-IsClosed (suc n) working seen h le =
      go (fresh seen (parents_of rel working)) (IsOpenAt-round working seen h)
        (λ x. open_parents-fall working seen x) (λ w h' le'. close-IsClosed n w (w ++ seen) h' le')
    where
      go :
          (new : List Uuid)
          → IsOpenAt new (new ++ seen)
          → ((x : Uuid)
              → contains_id new x ≡ true
              → open_parents rel (new ++ seen) < open_parents rel seen)
          → ((w : List Uuid)
              → IsOpenAt w (w ++ seen)
              → open_parents rel (w ++ seen) ≤ n
              → IsClosed (close n rel w (w ++ seen)))
          → IsClosed (close n rel new (new ++ seen))
      go [] o f rec = rw (close-nil n seen) (IsClosed-of_last seen o)
      go (x ∷ xs) o f rec = rec (x ∷ xs) o (omega (arith, f x (ground arith)))

  -- Rounds keep rows.
  pub close-keeps :
      (n : ℕ) (working seen : List Uuid) (p : Uuid)
      → contains_id seen p ≡ true
      → contains_id (close n rel working seen) p ≡ true
  unfolding close
  close-keeps zero working seen p h = h
  close-keeps (suc n) working seen p h =
      let new = fresh seen (parents_of rel working) in
      close-keeps n new (new ++ seen) p (ground (arith, contains-append new seen p))

  -- Every row is an ancestor.
  close_sound :
      (n : ℕ) (working seen : List Uuid) (x : Uuid)
      → ((p : Uuid) → contains_id working p ≡ true → Ancestor rel p x)
      → ((p : Uuid) → contains_id seen p ≡ true → Ancestor rel p x)
      → (p : Uuid) → contains_id (close n rel working seen) p ≡ true
      → Ancestor rel p x
  unfolding close
  close_sound zero working seen x hw hs p k = hs p k
  close_sound (suc n) working seen x hw hs p k =
      let new = fresh seen (parents_of rel working) in
      let hn : (q : Uuid) → contains_id new q ≡ true → Ancestor rel q x = λ q c.
        let (y, r, w) =
          parents_of-child rel working q
            (ground (arith, c, contains-fresh seen (parents_of rel working) q)) in
        above r (hw y w) in
      close_sound n new (new ++ seen) x hn
        (λ q c. elim (Bool-cases (contains_id new q)) [
          | inl e ↦ hn q e
          | inr e ↦ hs q (ground (arith, e, contains-append new seen q))
        ])
        p k

  -- A row set that holds the parents of `x` and is closed under parents holds its ancestors.
  ancestors_in :
      (seen : List Uuid) {a x : Uuid}
      → IsClosed seen
      → ((p : Uuid) → has_relation rel p x ≡ true → contains_id seen p ≡ true)
      → Ancestor rel a x
      → contains_id seen a ≡ true
  ancestors_in seen h d (parent r) = d _ r
  ancestors_in seen h d (above r anc) = h _ _ r (ancestors_in seen h d anc)

  abbrev first_rows : Uuid → List Uuid
  first_rows x = fresh [] (parents_of rel (x ∷ []))

  first_parent : (x p : Uuid) → contains_id (first_rows x) p ≡ true → Ancestor rel p x
  first_parent x p h =
      let (y, r, w) =
        parents_of-child rel (x ∷ []) p
          (ground (arith, h, contains-fresh [] (parents_of rel (x ∷ [])) p)) in
      parent (subst (λ z. has_relation rel p z ≡ true) (sym ((==_iff x y).0 (ground (arith, w)))) r)

  first_complete : (x p : Uuid) → has_relation rel p x ≡ true → contains_id (first_rows x) p ≡ true
  first_complete x p r = ground (
    arith,
    contains-fresh [] (parents_of rel (x ∷ [])) p,
    contains-parents_of rel (x ∷ []) p x r (ground (arith, (==_iff x x).1 refl)),
  )

-- childIsAncestorOf answers true exactly when the child is an ancestor of the parent: the number
-- of rounds is enough, and no row is there that is not an ancestor.
pub child_is_ancestor_of_iff :
    (rel : Relations) (child par : Uuid)
    → (child_is_ancestor_of rel child par ≡ true) ↔ Ancestor rel child par
unfolding child_is_ancestor_of ancestry IsOpenAt
child_is_ancestor_of_iff rel child par =
    let first = first_rows rel par in
    (
      λ h.
          close_sound rel (length rel) first first par (first_parent rel par) (first_parent rel par)
            child h,
      λ anc.
          ancestors_in rel (close (length rel) rel first first)
            (close-IsClosed rel (length rel) first first (λ p y r k. inl k)
              (count_if-le-length (λ r. not (contains_id first r.0)) rel))
            (λ p r. close-keeps rel (length rel) first first p (first_complete rel par p r)) anc,
    )
