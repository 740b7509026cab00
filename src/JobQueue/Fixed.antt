-- ===== src/JobQueue/Fixed.antt =====
-- Rows of internal/jobqueue that calls leave alone: a leased job until its lease ends, and a job that
-- is done, failed or canceled for good.
use meristem.Base.{
  ℕ, String, Bool, true, false, ◌&&◌, ◌||◌, not, Option, none, some, List, [], ◌∷◌, ◌++◌, ◌==◌,
  if◌then◌else◌, any, all, contains_id, ◌≡◌, ◌≢◌, refl, sym, ap, ◌∙◌, arith, any-append, inl, inr,
  Bool-cases, ==_iff,
}
use mathlib.Core.Bool.{true≢false}
use meristem.Domain.{Uuid}
use meristem.Events.{SubjectKind}
use meristem.JobQueue.{
  claim_candidate, or_same, is_work_item, JobState, Job, Queue, QueueCall, claim_call, mark_call,
  dispatch_call, queue_call, queue_calls, ready, candidate, lease_job, update_job, claim_next_in_tx,
  is_leased, finish, mark_terminal, dispatch,
}
use meristem.JobQueue.Leases.{candidate-IsChosen, candidate-all}

abbrev pub has_job : Uuid → Queue → Bool
has_job id q = any (λ j. j.id == id) q

abbrev pub all_with : (Job → Bool) → Uuid → Queue → Bool
all_with p id q = all (λ j. not (j.id == id) || p j) q

-- The queue has the job, and what it has under that id passes the test.
pub record IsFixed (p : Job → Bool) (id : Uuid) (q : Queue) : Type 0 where
  pub there : has_job id q ≡ true
  pub passes : all_with p id q ≡ true

all-snoc :
    (f : Job → Bool) (q : Queue) (j : Job)
    → all f q ≡ true
    → f j ≡ true
    → all f (q ++ j ∷ []) ≡ true
all-snoc f [] j h e = ground (arith, e)
all-snoc f (k ∷ ks) j h e = ground (arith, all-snoc f ks j, e)

module _ (p : Job → Bool) (id : Uuid) where
  has_job-update :
      (k : Uuid) (f : Job → Job) (q : Queue)
      → ((j : Job) → (f j).id ≡ j.id)
      → has_job id (update_job k f q) ≡ has_job id q
  unfolding update_job
  has_job-update k f [] i = refl
  has_job-update k f (j ∷ js) i = ground (arith, i j, has_job-update k f js i)

  all_with-update :
      (k : Uuid) (f : Job → Job) (q : Queue)
      → (k == id) ≡ false
      → ((j : Job) → (f j).id ≡ j.id)
      → all_with p id q ≡ true
      → all_with p id (update_job k f q) ≡ true
  unfolding update_job
  all_with-update k f [] n i h = refl
  all_with-update k f (j ∷ js) n i h = ground (arith, n, i j, all_with-update k f js n i)

  -- A row that is not ready is not the candidate.
  not_candidate :
      (now : ℕ) (locked : List Uuid) (q : Queue) (j : Job)
      → ((k : Job) → p k ≡ true → ready now k.state k.lease_until ≡ false)
      → IsFixed p id q
      → candidate now locked q ≡ some j
      → (j.id == id) ≡ false
  not_candidate now locked q j r x h = ground (
    arith,
    candidate-all now locked (λ k. not (k.id == id) || p k) q j x.passes h,
    (candidate-IsChosen now locked q j h).passes,
    r j,
  )

  claim_candidate-IsFixed :
      (now millis : ℕ) (locked : List Uuid) (q : Queue) (o : Option Job)
      → ((j : Job) → p j ≡ true → ready now j.state j.lease_until ≡ false)
      → IsFixed p id q
      → candidate now locked q ≡ o
      → IsFixed p id (claim_candidate now millis q o).1
  claim_candidate-IsFixed now millis locked q none r x e = x
  claim_candidate-IsFixed now millis locked q (some j) r x e = record {
    there = has_job-update j.id (lease_job now millis) q (λ k. refl) ∙ x.there;
    passes =
        all_with-update j.id (lease_job now millis) q (not_candidate now locked q j r x e)
          (λ k. refl) x.passes;
  }

  claim-IsFixed :
      (now millis : ℕ) (locked : List Uuid) (q : Queue)
      → ((j : Job) → p j ≡ true → ready now j.state j.lease_until ≡ false)
      → IsFixed p id q
      → IsFixed p id (claim_next_in_tx now millis locked q).1
  unfolding claim_next_in_tx
  claim-IsFixed now millis locked q r x = claim_candidate-IsFixed now millis locked q _ r x refl

  pub claimed-ne :
      (now millis : ℕ) (locked : List Uuid) (q : Queue) (j : Job) (q' : Queue)
      → ((k : Job) → p k ≡ true → ready now k.state k.lease_until ≡ false)
      → IsFixed p id q
      → claim_next_in_tx now millis locked q ≡ (some j, q')
      → j.id ≢ id
  unfolding claim_next_in_tx
  claimed-ne now millis locked q j q' r x h = go _ refl h
    where
      go :
          (o : Option Job)
          → candidate now locked q ≡ o
          → claim_candidate now millis q o ≡ (some j, q')
          → j.id ≢ id
      go none e h' i = absurd cc
      go (some k) e h' i =
          true≢false (sym (ground (arith, i, h')) ∙ not_candidate now locked q k r x e)

  finish-has :
      (now : ℕ) (k : Uuid) (to : JobState) (q : Queue)
      → has_job id (finish now k to q) ≡ has_job id q
  unfolding finish
  finish-has now k to [] = refl
  finish-has now k to (j ∷ js) = ground (arith, finish-has now k to js)

  -- Marking leaves a job alone that has another id or is not leased.
  finish-all :
      (now : ℕ) (k : Uuid) (to : JobState) (q : Queue)
      → ((j : Job) → p j ≡ true → (k == id && is_leased j.state) ≡ false)
      → all_with p id q ≡ true
      → all_with p id (finish now k to q) ≡ true
  unfolding finish
  finish-all now k to [] n h = refl
  finish-all now k to (j ∷ js) n h = ground (arith, n j, finish-all now k to js n)

  mark-IsFixed :
      (now : ℕ) (k : Uuid) (to : JobState) (q : Queue)
      → ((j : Job) → p j ≡ true → (k == id && is_leased j.state) ≡ false)
      → IsFixed p id q
      → IsFixed p id (or_same q (mark_terminal now k to q))
  unfolding mark_terminal
  mark-IsFixed now k to q n x = record {
    there = ground (arith, x.there, finish-has now k to q);
    passes = ground (arith, x.passes, finish-all now k to q n);
  }

  absent-ne : (k : Uuid) (q : Queue) → has_job k q ≡ false → has_job id q ≡ true → (k == id) ≡ false
  absent-ne k q a t = elim (Bool-cases (k == id)) [
    | inl e ↦ absurd (true≢false (sym t ∙ (sym (ap (λ y. has_job y q) ((==_iff k id).0 e)) ∙ a)))
    | inr e ↦ e
  ]

  snoc-IsFixed :
      (q : Queue) (j : Job) → (j.id == id) ≡ false → IsFixed p id q → IsFixed p id (q ++ j ∷ [])
  snoc-IsFixed q j n x = record {
    there = ground (arith, x.there, any-append (λ k. k.id == id) q (j ∷ []));
    passes = all-snoc (λ k. not (k.id == id) || p k) q j x.passes (ground (arith, n));
  }

  dispatch-IsFixed :
      (items : List Uuid) (at : ℕ) (k : Uuid) (kind : SubjectKind) (subject : Uuid)
      (payload : String) (q : Queue)
      → IsFixed p id q
      → IsFixed p id (or_same q (dispatch items at k kind subject payload q))
  unfolding dispatch
  dispatch-IsFixed items at k kind subject payload q x =
      dispatch_tests (is_work_item kind) (has_job k q) (contains_id items subject) _ refl refl
    where
      dispatch_tests :
          (a b c : Bool) (j : Job)
          → j.id ≡ k
          → has_job k q ≡ b
          → IsFixed p id (
              or_same q (
                if not a
                then none
                else if b
                then some q
                else if not c
                then none
                else some (q ++ j ∷ [])))
      dispatch_tests false b c j i e = x
      dispatch_tests true true c j i e = x
      dispatch_tests true false false j i e = x
      dispatch_tests true false true j i e =
          snoc-IsFixed q j (ap (λ y. y == id) i ∙ absent-ne k q e x.there) x

  -- A call that does not end the lease of the job or reach it.
  abbrev pub Spares : QueueCall → Type 0
  Spares (claim_call now _ _) = (j : Job) → p j ≡ true → ready now j.state j.lease_until ≡ false
  Spares (mark_call _ k _) = (j : Job) → p j ≡ true → (k == id && is_leased j.state) ≡ false
  Spares (dispatch_call _ _ _ _ _ _) = Unit

  queue_call-IsFixed :
      (c : QueueCall) (q : Queue) → Spares c → IsFixed p id q → IsFixed p id (queue_call c q)
  unfolding queue_call
  queue_call-IsFixed (claim_call now millis locked) q h x = claim-IsFixed now millis locked q h x
  queue_call-IsFixed (mark_call now k to) q h x = mark-IsFixed now k to q h x
  queue_call-IsFixed (dispatch_call items at k kind subject payload) q h x =
      dispatch-IsFixed items at k kind subject payload q x

  abbrev pub AllSpare : List QueueCall → Type 0
  AllSpare [] = Unit
  AllSpare (c ∷ cs) = Spares c × AllSpare cs

  pub queue_calls-IsFixed :
      (cs : List QueueCall) (q : Queue)
      → AllSpare cs
      → IsFixed p id q
      → IsFixed p id (queue_calls cs q)
  unfolding queue_calls
  queue_calls-IsFixed [] q h x = x
  queue_calls-IsFixed (c ∷ cs) q h x =
      queue_calls-IsFixed cs (queue_call c q) h.1 (queue_call-IsFixed c q h.0 x)
