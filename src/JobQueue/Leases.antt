-- ===== src/JobQueue/Leases.antt =====
-- What a lease of internal/jobqueue gives: the oldest ready job, and nobody else until it ends.
use meristem.Base.{
  ℕ, Bool, true, false, ◌&&◌, Option, none, some, List, [], ◌∷◌, if◌then◌else◌, any, all, ◌≡◌, refl,
  subst, arith,
}
use meristem.Domain.{Uuid}
use meristem.JobQueue.{Job, Queue, eligible, before, first_of, candidate}

any_none :
    {A : Type 0} (p q : A → Bool) (xs : List A)
    → ((x : A) → q x ≡ true → p x ≡ true)
    → any p xs ≡ false
    → any q xs ≡ false
any_none p q [] h k = refl
any_none p q (x ∷ xs) h k = ground (arith, h x, any_none p q xs h)

before_irrefl : (a : Job) → before a a ≡ false
before_irrefl a = ground arith

before_asym : (a b : Job) → before a b ≡ true → before b a ≡ false
before_asym a b h = ground arith

-- What is before `k` is before `r`, where `r` is not before `k`.
before_le : (a k r : Job) → before r k ≡ false → before a k ≡ true → before a r ≡ true
before_le a k r h g = ground arith

module _ (p : Job → Bool) where
  abbrev pub Firsts : Job → Queue → Type 0
  Firsts j q = any (λ x. p x && before x j) q ≡ false

  pub record IsChosen (j : Job) (q : Queue) : Type 0 where
    pub passes : p j ≡ true
    pub first : Firsts j q

  IsChosen-between :
      (k r : Job) (js : Queue) (b : Bool)
      → p k ≡ true
      → IsChosen r js
      → before r k ≡ b
      → IsChosen (if b then r else k) (k ∷ js)
  IsChosen-between k r js true e c h = record {
    passes = c.passes;
    first = ground (arith, e, c.first, before_asym r k h);
  }
  IsChosen-between k r js false e c h = record {
    passes = e;
    first = ground (
      arith,
      e,
      before_irrefl k,
      any_none (λ x. p x && before x r) (λ x. p x && before x k) js
          (λ x g. ground (arith, g, before_le x k r h)) c.first,
    );
  }

  chosen :
      (k : Job) (js : Queue) (b : Bool) (o : Option Job) (j : Job)
      → p k ≡ b
      → ((r : Job) → o ≡ some r → IsChosen r js)
      → (o ≡ none → any p js ≡ false)
      → (if b then some (first_of k o) else o) ≡ some j
      → IsChosen j (k ∷ js)
  chosen k js false o j e i n h = record {
    passes = (i j h).passes;
    first = ground (arith, e, (i j h).first);
  }
  chosen k js true none j e i n h =
      subst (λ x. IsChosen x (k ∷ js)) (cc (h))
        (record {
          passes = e;
          first = ground (
            arith,
            e,
            before_irrefl k,
            any_none p (λ x. p x && before x k) js (λ x g. ground (arith, g)) (n refl),
          );
        })
  chosen k js true (some r) j e i n h =
      subst (λ x. IsChosen x (k ∷ js)) (cc (h))
        (IsChosen-between k r js (before r k) e (i r refl) refl)

either-passes :
    (f : Job → Bool) (b : Bool) (k r : Job)
    → f k ≡ true
    → f r ≡ true
    → f (if b then r else k) ≡ true
either-passes f true k r e g = g
either-passes f false k r e g = e

chosen-passes :
    (f : Job → Bool) (k : Job) (b : Bool) (o : Option Job) (j : Job)
    → f k ≡ true
    → ((r : Job) → o ≡ some r → f r ≡ true)
    → (if b then some (first_of k o) else o) ≡ some j
    → f j ≡ true
chosen-passes f k false o j e i h = i j h
chosen-passes f k true none j e i h = subst (λ x. f x ≡ true) (cc (h)) e
chosen-passes f k true (some r) j e i h =
    subst (λ x. f x ≡ true) (cc (h)) (either-passes f (before r k) k r e (i r refl))

module _ (now : ℕ) (locked : List Uuid) where
  none-eligible : (q : Queue) → candidate now locked q ≡ none → any (eligible now locked) q ≡ false
  unfolding candidate
  none-eligible [] h = refl
  none-eligible (j ∷ js) h = ground (arith, none-eligible js)

  pub candidate-IsChosen :
      (q : Queue) (j : Job) → candidate now locked q ≡ some j → IsChosen (eligible now locked) j q
  unfolding candidate
  candidate-IsChosen [] j h = absurd cc
  candidate-IsChosen (k ∷ ks) j h =
      chosen (eligible now locked) k ks (eligible now locked k) (candidate now locked ks) j refl
        (candidate-IsChosen ks) (none-eligible ks) h

  pub candidate-all :
      (f : Job → Bool) (q : Queue) (j : Job)
      → all f q ≡ true
      → candidate now locked q ≡ some j
      → f j ≡ true
  unfolding candidate
  candidate-all f [] j a h = absurd cc
  candidate-all f (k ∷ ks) j a h =
      chosen-passes f k (eligible now locked k) (candidate now locked ks) j (ground (arith, a))
        (λ r e. candidate-all f ks r (ground (arith, a)) e) h
