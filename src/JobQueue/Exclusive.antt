-- ===== src/JobQueue/Exclusive.antt =====
-- Leases of internal/jobqueue are exclusive while they last, and finished jobs stay finished.
use meristem.Base.{
  ℕ, ◌+◌, ◌*◌, ◌<◌, Bool, true, false, ◌&&◌, not, Option, none, some, List, [], ◌∷◌, ◌==◌, ltb, all,
  ◌≡◌, ◌≢◌, refl, ap, ◌∙◌, subst, arith, inl, inr, Bool-cases,
}
use meristem.Domain.{Uuid}
use meristem.JobQueue.{
  JobState, Job, Queue, QueueCall, claim_call, mark_call, dispatch_call, queue_calls, candidate,
  claim_candidate, lease_job, update_job, claim_next_in_tx, is_leased,
}
use meristem.JobQueue.Leases.{candidate-all}
use meristem.JobQueue.Fixed.{
  has_job, all_with, IsFixed, Spares, AllSpare, claimed-ne, queue_calls-IsFixed,
}

abbrev is_until : ℕ → Option ℕ → Bool
is_until until none = false
is_until until (some u) = u == until

abbrev held : ℕ → Job → Bool
held until j = is_leased j.state && is_until until j.lease_until

none_with : (id : Uuid) (q : Queue) → has_job id q ≡ false → all (λ j. not (j.id == id)) q ≡ true
none_with id [] h = refl
none_with id (j ∷ js) h = ground (arith, none_with id js)

candidate-has :
    (now : ℕ) (locked : List Uuid) (q : Queue) (j : Job)
    → candidate now locked q ≡ some j
    → has_job j.id q ≡ true
candidate-has now locked q j h = elim (Bool-cases (has_job j.id q)) [
  | inl e ↦ e
  | inr e ↦
      ground (arith, candidate-all now locked (λ k. not (k.id == j.id)) q j (none_with j.id q e) h)
]

module _ (p : Job → Bool) (id : Uuid) (f : Job → Job) (i : (j : Job) → (f j).id ≡ j.id) where
  updated-has : (q : Queue) → has_job id (update_job id f q) ≡ has_job id q
  unfolding update_job
  updated-has [] = refl
  updated-has (j ∷ js) = ground (arith, i j, updated-has js)

  updated-all :
      (q : Queue) → ((j : Job) → p (f j) ≡ true) → all_with p id (update_job id f q) ≡ true
  unfolding update_job
  updated-all [] g = refl
  updated-all (j ∷ js) g = ground (arith, i j, g j, updated-all js g)

id_of : (a b : Job) → some a ≡ some b → a.id ≡ b.id
id_of a b h = cc

held_at :
    (now millis : ℕ) (locked : List Uuid) (q : Queue) (o : Option Job) (j : Job) (q' : Queue)
    → candidate now locked q ≡ o
    → claim_candidate now millis q o ≡ (some j, q')
    → IsFixed (held (now + millis * 1000)) j.id q'
held_at now millis locked q none j q' e h = absurd cc
held_at now millis locked q (some k) j q' e h =
    let lease = lease_job now millis k in
    let rows : update_job k.id (lease_job now millis) q ≡ q' = ap (λ c. c.1) h in
    let same : k.id ≡ j.id = id_of lease j (ap (λ c. c.0) h) in
    subst (λ id. IsFixed (held (now + millis * 1000)) id q') same
      (subst (IsFixed (held (now + millis * 1000)) k.id) rows (record {
        there =
            updated-has (held (now + millis * 1000)) k.id (lease_job now millis) (λ x. refl) q
            ∙ candidate-has now locked q k e;
        passes =
            updated-all (held (now + millis * 1000)) k.id (lease_job now millis) (λ x. refl) q
              (λ x. ground arith);
      }))

-- What does not end the lease of `id` until `until`: a claim before it, and a mark of another job.
abbrev pub spares : Uuid → ℕ → QueueCall → Bool
spares id until (claim_call now _ _) = ltb now until
spares id until (mark_call _ k _) = not (k == id)
spares id until (dispatch_call _ _ _ _ _ _) = true

held-spares :
    (id : Uuid) (until : ℕ) (c : QueueCall) → spares id until c ≡ true → Spares (held until) id c
held-spares id until (claim_call now _ _) h = λ j g. ground (arith, h, g)
held-spares id until (mark_call _ k _) h = λ j g. ground (arith, h)
held-spares id until (dispatch_call _ _ _ _ _ _) h = tt

all_spare :
    (id : Uuid) (until : ℕ) (cs : List QueueCall)
    → all (spares id until) cs ≡ true
    → AllSpare (held until) id cs
all_spare id until [] h = tt
all_spare id until (c ∷ cs) h =
    (held-spares id until c (ground (arith, h)), all_spare id until cs (ground (arith, h)))

-- While a lease lasts, no other claim gets its job: after any calls but a mark of that job, a claim
-- before the lease's end, whatever rows other transactions hold, returns another job.
pub lease_exclusive :
    (now millis : ℕ) (locked : List Uuid) (q q' : Queue) (j : Job) (cs : List QueueCall)
    (now' millis' : ℕ) (locked' : List Uuid) (k : Job) (q'' : Queue)
    → claim_next_in_tx now millis locked q ≡ (some j, q')
    → all (spares j.id (now + millis * 1000)) cs ≡ true
    → now' < now + millis * 1000
    → claim_next_in_tx now' millis' locked' (queue_calls cs q') ≡ (some k, q'')
    → k.id ≢ j.id
unfolding claim_next_in_tx
lease_exclusive now millis locked q q' j cs now' millis' locked' k q'' h s lt h' =
    claimed-ne (held (now + millis * 1000)) j.id now' millis' locked' (queue_calls cs q') k q''
      (λ x g. ground (arith, lt, g))
      (queue_calls-IsFixed (held (now + millis * 1000)) j.id cs q'
        (all_spare j.id (now + millis * 1000) cs s) (held_at now millis locked q _ j q' refl h))
      h'

abbrev pub is_finished : JobState → Bool
is_finished JobState.done = true
is_finished JobState.failed = true
is_finished JobState.canceled = true
is_finished _ = false

finished_spares : (id : Uuid) (cs : List QueueCall) → AllSpare (λ j. is_finished j.state) id cs
finished_spares id [] = tt
finished_spares id (claim_call now _ _ ∷ cs) = (λ j g. ground (arith, g), finished_spares id cs)
finished_spares id (mark_call _ k _ ∷ cs) = (λ j g. ground (arith, g), finished_spares id cs)
finished_spares id (dispatch_call _ _ _ _ _ _ ∷ cs) = (tt, finished_spares id cs)

-- A job that is done, failed or canceled is so after any calls, and no claim returns it.
pub finished_stays :
    (id : Uuid) (q : Queue) (cs : List QueueCall) (now millis : ℕ) (locked : List Uuid) (k : Job)
    (q' : Queue)
    → has_job id q ≡ true
    → all_with (λ j. is_finished j.state) id q ≡ true
    → (has_job id (queue_calls cs q) ≡ true)
      × (all_with (λ j. is_finished j.state) id (queue_calls cs q) ≡ true)
      × (claim_next_in_tx now millis locked (queue_calls cs q) ≡ (some k, q') → k.id ≢ id)
finished_stays id q cs now millis locked k q' t a =
    let x =
      queue_calls-IsFixed (λ j. is_finished j.state) id cs q (finished_spares id cs)
        (record { there = t; passes = a }) in
    (
      x.there,
      x.passes,
      claimed-ne (λ j. is_finished j.state) id now millis locked (queue_calls cs q) k q'
          (λ j g. ground (arith, g)) x,
    )
