-- ===== src/Crossnode/Queue/Drain.antt =====
-- What a node that drains its queue is given.
use meristem.Base.{
  ℕ, ◌≤◌, ◌<◌, suc, zero, String, Bool, true, false, ◌&&◌, ◌||◌, not, List, [], ◌∷◌, ◌≡◌, inl, inr,
  refl, ◌∙◌, ap, arith, any, select, length, if◌then◌else◌, Bool-cases, all, and_intro, and_left,
  and_right,
}
use meristem.Base.Int.{ℤ, pos, negsuc}
use meristem.Domain.QualifiedRef.{valid_node_id}
use meristem.Crossnode.Queue.{
  Row, QueueStore, ok, err, drained_first, insert_row, sort_rows, take, clamp_limit, waits_for,
  pending_for_target, invalid_target_node_id,
}

module _ {ℓ} {A : Type ℓ} where
  pub any-take : (p : A → Bool) (n : ℕ) (xs : List A) → any p (take n xs) ≡ true → any p xs ≡ true
  any-take p zero xs h = cc
  any-take p (suc n) [] h = cc
  any-take p (suc n) (x ∷ xs) h = ground (arith, any-take p n xs)

  pub any-select : (p q : A → Bool) (xs : List A) → any p (select q xs) ≡ any (λ x. q x && p x) xs
  any-select p q [] = refl
  any-select p q (x ∷ xs) = ground (arith, any-select p q xs)

  all-take : (p : A → Bool) (n : ℕ) (xs : List A) → all p xs ≡ true → all p (take n xs) ≡ true
  all-take p zero xs h = refl
  all-take p (suc n) [] h = refl
  all-take p (suc n) (x ∷ xs) h = ground (arith, all-take p n xs)

  length-take : (n : ℕ) (xs : List A) → length (take n xs) ≤ n
  length-take zero xs = omega arith
  length-take (suc n) [] = omega arith
  length-take (suc n) (x ∷ xs) = omega (arith, length-take n xs)

  take-all : (n : ℕ) (xs : List A) → length (take n xs) < n → take n xs ≡ xs
  take-all zero xs h = absurd (omega arith)
  take-all (suc n) [] h = refl
  take-all (suc n) (x ∷ xs) h = ap (◌∷◌ x) (take-all n xs (omega arith))

  all-select : (p : A → Bool) (xs : List A) → all p (select p xs) ≡ true
  all-select p [] = refl
  all-select p (x ∷ xs) = ground (arith, all-select p xs)

any-insert_row :
    (p : Row → Bool) (r : Row) (xs : List Row) → any p (insert_row r xs) ≡ (p r || any p xs)
unfolding insert_row
any-insert_row p r [] = refl
any-insert_row p r (x ∷ xs) = ground (arith, any-insert_row p r xs)

pub any-sort_rows : (p : Row → Bool) (xs : List Row) → any p (sort_rows xs) ≡ any p xs
unfolding sort_rows
any-sort_rows p [] = refl
any-sort_rows p (x ∷ xs) = any-insert_row p x (sort_rows xs) ∙ ground (arith, any-sort_rows p xs)

all-insert_row :
    (p : Row → Bool) (r : Row) (xs : List Row) → all p (insert_row r xs) ≡ (p r && all p xs)
unfolding insert_row
all-insert_row p r [] = refl
all-insert_row p r (x ∷ xs) = ground (arith, all-insert_row p r xs)

all-sort_rows : (p : Row → Bool) (xs : List Row) → all p (sort_rows xs) ≡ all p xs
unfolding sort_rows
all-sort_rows p [] = refl
all-sort_rows p (x ∷ xs) = all-insert_row p x (sort_rows xs) ∙ ground (arith, all-sort_rows p xs)

-- Each row is drained before all that come after it.
abbrev pub in_order : List Row → Bool
in_order [] = true
in_order (r ∷ rs) = all (drained_first r) rs && in_order rs

drained_first_trans :
    (a b c : Row) → drained_first a b ≡ true → drained_first b c ≡ true → drained_first a c ≡ true
drained_first_trans a b c h k = ground arith

drained_first_total : (a b : Row) → drained_first a b ≡ false → drained_first b a ≡ true
drained_first_total a b h = ground arith

all_after :
    (a b : Row) (rs : List Row)
    → drained_first a b ≡ true
    → all (drained_first b) rs ≡ true
    → all (drained_first a) rs ≡ true
all_after a b [] h k = refl
all_after a b (r ∷ rs) h k =
    let here = drained_first_trans a b r h (ground (arith, k)) in
    let rest = all_after a b rs h (ground (arith, k)) in rw (here, rest)

insert_row-in_order :
    (r : Row) (xs : List Row) → in_order xs ≡ true → in_order (insert_row r xs) ≡ true
unfolding insert_row
insert_row-in_order r [] h = refl
insert_row-in_order r (x ∷ xs) h =
    let first : all (drained_first x) xs ≡ true = and_left _ _ h in
    let ordered : in_order xs ≡ true = and_right (all (drained_first x) xs) _ h in
    elim (Bool-cases (drained_first r x)) [
      | inl e ↦ rw e (and_intro (and_intro e (all_after r x xs e first)) h)
      | inr e ↦ rw e (
          and_intro
            (all-insert_row (drained_first x) r xs ∙ and_intro (drained_first_total r x e) first)
            (insert_row-in_order r xs ordered))
    ]

sort_rows-in_order : (xs : List Row) → in_order (sort_rows xs) ≡ true
unfolding sort_rows
sort_rows-in_order [] = refl
sort_rows-in_order (x ∷ xs) = insert_row-in_order x (sort_rows xs) (sort_rows-in_order xs)

take-in_order : (n : ℕ) (xs : List Row) → in_order xs ≡ true → in_order (take n xs) ≡ true
take-in_order zero xs h = refl
take-in_order (suc n) [] h = refl
take-in_order (suc n) (x ∷ xs) h =
    and_intro (all-take (drained_first x) n xs (and_left _ _ h))
      (take-in_order n xs (and_right (all (drained_first x) xs) _ h))

clamp_bound : (limit : ℤ) → (1 ≤ clamp_limit limit) × (clamp_limit limit ≤ 500)
clamp_bound (pos n) = ground arith
clamp_bound (negsuc n) = ground arith

clamp_le : (n : ℕ) → 1 ≤ n → clamp_limit (pos n) ≤ n
clamp_le n h = ground arith

pub taken :
    (b : Bool) (xs out : List Row)
    → (if b then err invalid_target_node_id else ok xs) ≡ ok out
    → xs ≡ out
taken b xs out h = ground arith

-- A node that drains its queue gets at most 500 commands, and no more than a positive limit that it
-- gave; they are waiting for it, in the order of their times and identifiers; and if they are
-- fewer than the limit allows, no other row of the queue waits for the node.
pub pending_for_target-bounds :
    (target : String) (limit : ℤ) (s : QueueStore) (out : List Row)
    → pending_for_target target limit s ≡ ok out
    → (length out ≤ 500)
      × ((n : ℕ) → limit ≡ pos n → 1 ≤ n → length out ≤ n)
      × (all (waits_for target) out ≡ true)
      × (in_order out ≡ true)
      × (length out < clamp_limit limit
          → (p : Row → Bool) → any (λ r. waits_for target r && p r) s.rows ≡ true
          → any p out ≡ true)
unfolding pending_for_target
pending_for_target-bounds target limit s out h =
    let waiting = select (waits_for target) s.rows in
    let e : take (clamp_limit limit) (sort_rows waiting) ≡ out =
      taken (not (valid_node_id target)) _ out h in
    rw (← e) (
      (let l = length-take (clamp_limit limit) (sort_rows waiting) in
          let b = (clamp_bound limit).1 in omega arith),
      λ n k one.
          let l = length-take (clamp_limit limit) (sort_rows waiting) in
          let c = ap clamp_limit k in let d = clamp_le n one in omega arith,
      all-take (waits_for target) (clamp_limit limit) (sort_rows waiting)
          (all-sort_rows (waits_for target) waiting ∙ all-select (waits_for target) s.rows),
      take-in_order (clamp_limit limit) (sort_rows waiting) (sort_rows-in_order waiting),
      λ short p w.
          ap (any p) (take-all (clamp_limit limit) (sort_rows waiting) short)
          ∙ (any-sort_rows p waiting ∙ (any-select p (waits_for target) s.rows ∙ w)),
    )
