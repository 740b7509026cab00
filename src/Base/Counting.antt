-- ===== src/Base/Counting.antt =====
-- How many elements pass a test, and that a permutation changes neither this nor `any`.
use Prim.Native.Nat.{ℕ, ◌+◌, ◌≤◌, ◌<◌}
use mathlib.Core.Path.{◌≡◌, refl, ◌∙◌}
use mathlib.Core.Bool.{Bool, true, false, not, ◌&&◌, Bool-set}
use mathlib.Core.Logic.{∥∥₁_elim}
use mathlib.Core.List.{List, [], ◌∷◌, Perm, Permᴰ}
use native.Mathlib.Nat.{ℕ_set}
use native.Mathlib.Omega.{arith}
use meristem.Base.Lists.{any, length}
use meristem.Base.Tests.{if◌then◌else◌}

module _ {ℓ} {A : Type ℓ} where
  abbrev pub count_if : (A → Bool) → List A → ℕ
  count_if p [] = 0
  count_if p (x ∷ xs) = (if p x then 1 else 0) + count_if p xs

  count_if-Permᴰ : (p : A → Bool) {xs ys : List A} → Permᴰ xs ys → count_if p xs ≡ count_if p ys
  count_if-Permᴰ p Permᴰ.nil = refl
  count_if-Permᴰ p (Permᴰ.cons e h) = ground (arith, e, count_if-Permᴰ p h)
  count_if-Permᴰ p (Permᴰ.swap e f) = ground (arith, e, f)
  count_if-Permᴰ p (Permᴰ.trans h k) = count_if-Permᴰ p h ∙ count_if-Permᴰ p k

  pub count_if-Perm : (p : A → Bool) {xs ys : List A} → Perm xs ys → count_if p xs ≡ count_if p ys
  count_if-Perm p h = ∥∥₁_elim h (ℕ_set _ _) (count_if-Permᴰ p)

  any-Permᴰ : (p : A → Bool) {xs ys : List A} → Permᴰ xs ys → any p xs ≡ any p ys
  any-Permᴰ p Permᴰ.nil = refl
  any-Permᴰ p (Permᴰ.cons e h) = ground (arith, e, any-Permᴰ p h)
  any-Permᴰ p (Permᴰ.swap e f) = ground (arith, e, f)
  any-Permᴰ p (Permᴰ.trans h k) = any-Permᴰ p h ∙ any-Permᴰ p k

  pub any-Perm : (p : A → Bool) {xs ys : List A} → Perm xs ys → any p xs ≡ any p ys
  any-Perm p h = ∥∥₁_elim h (Bool-set _ _) (any-Permᴰ p)

module _ {ℓ} {A : Type ℓ} where
  pub count_if-le-length : (p : A → Bool) (xs : List A) → count_if p xs ≤ length xs
  count_if-le-length p [] = omega arith
  count_if-le-length p (x ∷ xs) = ground (arith, count_if-le-length p xs)

  pub count_if_mono :
      (p q : A → Bool) (xs : List A)
      → ((x : A) → q x ≡ true → p x ≡ true)
      → count_if q xs ≤ count_if p xs
  count_if_mono p q [] h = omega arith
  count_if_mono p q (x ∷ xs) h = ground (arith, h x, count_if_mono p q xs h)

  -- A weaker test that some element tells apart from the stronger one counts more.
  pub count_if-lt :
      (p q : A → Bool) (xs : List A)
      → ((x : A) → q x ≡ true → p x ≡ true)
      → any (λ x. p x && not (q x)) xs ≡ true
      → count_if q xs < count_if p xs
  count_if-lt p q [] h k = cc
  count_if-lt p q (x ∷ xs) h k = ground (arith, h x, count_if_mono p q xs h, count_if-lt p q xs h)

  pub any_of_count_if : (p : A → Bool) (xs : List A) → count_if p xs ≡ 0 → any p xs ≡ false
  any_of_count_if p [] h = refl
  any_of_count_if p (x ∷ xs) h = ground (arith, any_of_count_if p xs)

  pub any_mono :
      (p q : A → Bool) (xs : List A)
      → ((x : A) → q x ≡ true → p x ≡ true)
      → any q xs ≡ true
      → any p xs ≡ true
  any_mono p q [] h k = cc
  any_mono p q (x ∷ xs) h k = ground (arith, h x, any_mono p q xs h)
