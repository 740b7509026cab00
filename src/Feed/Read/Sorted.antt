-- ===== src/Feed/Read/Sorted.antt =====
-- Rows in the order of their seq, and those after a seq.
use meristem.Base.{
  ℕ, ◌+◌, ◌<◌, ◌≤◌, suc, zero, Bool, true, false, ◌&&◌, List, [], ◌∷◌, ◌++◌, ltb, select, length,
  ◌≡◌, ◌⊎◌, inl, inr, refl, sym, ◌∙◌, ap, subst, arith, Bool-cases,
}
use meristem.Feed.Read.{Row, take, last_seq}

module _ {ℓ} {A : Type ℓ} where
  abbrev pub drop : ℕ → List A → List A
  drop zero xs = xs
  drop (suc n) [] = []
  drop (suc n) (x ∷ xs) = drop n xs

  pub take-drop : (n : ℕ) (xs : List A) → xs ≡ take n xs ++ drop n xs
  take-drop zero xs = refl
  take-drop (suc n) [] = refl
  take-drop (suc n) (x ∷ xs) = ap (◌∷◌ x) (take-drop n xs)

  pub short : (n : ℕ) (xs : List A) → length (take n xs) < n → (take n xs ≡ xs) × (drop n xs ≡ [])
  short zero xs h = absurd (omega arith)
  short (suc n) [] h = (refl, refl)
  short (suc n) (x ∷ xs) h = let (a, b) = short n xs (omega arith) in (ap (◌∷◌ x) a, b)

  pub within : (n : ℕ) (xs : List A) → length xs ≤ n → (take n xs ≡ xs) × (drop n xs ≡ [])
  within zero [] h = (refl, refl)
  within zero (x ∷ xs) h = absurd (omega arith)
  within (suc n) [] h = (refl, refl)
  within (suc n) (x ∷ xs) h = let (a, b) = within n xs (omega arith) in (ap (◌∷◌ x) a, b)

  pub length-drop : (n : ℕ) (xs : List A) → length (take n xs) + length (drop n xs) ≡ length xs
  length-drop zero xs = omega arith
  length-drop (suc n) [] = omega arith
  length-drop (suc n) (x ∷ xs) = omega (arith, length-drop n xs)

  pub length-append : (xs ys : List A) → length (xs ++ ys) ≡ length xs + length ys
  length-append [] ys = omega arith
  length-append (x ∷ xs) ys = omega (arith, length-append xs ys)

  pub append_assoc : (xs ys zs : List A) → (xs ++ ys) ++ zs ≡ xs ++ (ys ++ zs)
  append_assoc [] ys zs = refl
  append_assoc (x ∷ xs) ys zs = ap (◌∷◌ x) (append_assoc xs ys zs)

  pub append_nil : (xs : List A) → xs ++ [] ≡ xs
  append_nil [] = refl
  append_nil (x ∷ xs) = ap (◌∷◌ x) (append_nil xs)

  pub select-append :
      (p : A → Bool) (xs ys : List A) → select p (xs ++ ys) ≡ select p xs ++ select p ys
  select-append p [] ys = refl
  select-append p (x ∷ xs) ys = ground (arith, select-append p xs ys)

  pub take-append : (n : ℕ) (xs ys : List A) → n ≤ length xs → take n (xs ++ ys) ≡ take n xs
  take-append zero xs ys h = refl
  take-append (suc n) [] ys h = absurd (omega arith)
  take-append (suc n) (x ∷ xs) ys h = ap (◌∷◌ x) (take-append n xs ys (omega arith))

module _ {ℓ} {A : Type ℓ} where
  -- Every seq is above the one before it.
  abbrev pub Ordered : ℕ → List (Row A) → Type 0
  Ordered n [] = Unit {0}
  Ordered n (r ∷ rs) = (n < r.seq) × Ordered r.seq rs

  abbrev pub above : ℕ → Row A → Bool
  above n r = ltb n r.seq

  pub all_above : (b c : ℕ) (rs : List (Row A)) → c ≤ b → Ordered b rs → select (above c) rs ≡ rs
  all_above b c [] l o = refl
  all_above b c (r ∷ rs) l o =
      let here : ltb c r.seq ≡ true = ground (arith, l, o.0) in
      rw here (ap (◌∷◌ r) (all_above r.seq c rs (omega (arith, l, o.0)) o.1))

  pub last_seq_le : (b : ℕ) (xs ys : List (Row A)) → Ordered b (xs ++ ys) → b ≤ last_seq b xs
  last_seq_le b [] ys o = omega arith
  last_seq_le b (x ∷ xs) ys o = omega (arith, o.0, last_seq_le x.seq xs ys o.1)

  -- What stands above the last of the first rows is the rest.
  pub rest_above :
      (b : ℕ) (xs ys : List (Row A))
      → Ordered b (xs ++ ys)
      → select (above (last_seq b xs)) (xs ++ ys) ≡ ys
  rest_above b [] ys o = all_above b b ys (omega arith) o
  rest_above b (x ∷ xs) ys o =
      let low : ltb (last_seq x.seq xs) x.seq ≡ false =
        ground (arith, last_seq_le x.seq xs ys o.1) in
      rw low (rest_above x.seq xs ys o.1)

  -- The rows of a kind after a seq.
  abbrev pub after : (A → Bool) → ℕ → List (Row A) → List (Row A)
  after p from log = select (λ r. p r.item && ltb from r.seq) log

  pub after-Ordered :
      (p : A → Bool) (from b c : ℕ) (log : List (Row A))
      → (c ≤ b) ⊎ (c ≤ from)
      → Ordered b log
      → Ordered c (after p from log)
  after-Ordered p from b c [] l o = tt
  after-Ordered p from b c (r ∷ rs) l o = elim (Bool-cases (p r.item && ltb from r.seq)) [
    | inl e ↦
        rw e
          ((ground (arith, e, l, o.0), after-Ordered p from r.seq r.seq rs (inl (omega arith)) o.1))
    | inr e ↦ rw e (after-Ordered p from r.seq c rs (later l) o.1)
  ]
    where
      later : (c ≤ b) ⊎ (c ≤ from) → (c ≤ r.seq) ⊎ (c ≤ from)
      later (inl k) = inl (omega (arith, o.0))
      later (inr k) = inr k

  pub after-after :
      (p : A → Bool) (from to : ℕ) (log : List (Row A))
      → from ≤ to
      → select (above to) (after p from log) ≡ after p to log
  after-after p from to [] l = refl
  after-after p from to (r ∷ rs) l = ground (arith, l, after-after p from to rs l)

  -- The rows after the last of the first rows after a seq.
  pub after_last :
      (p : A → Bool) (from b : ℕ) (log xs ys : List (Row A))
      → Ordered b log
      → after p from log ≡ xs ++ ys
      → after p (last_seq from xs) log ≡ ys
  after_last p from b log xs ys o h =
      let sorted = subst (Ordered from) h (after-Ordered p from b from log (inr (omega arith)) o) in
      sym (after-after p from (last_seq from xs) log (last_seq_le from xs ys sorted))
      ∙ (ap (select (above (last_seq from xs))) h ∙ rest_above from xs ys sorted)
