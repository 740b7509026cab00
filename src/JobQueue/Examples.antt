-- ===== src/JobQueue/Examples.antt =====
-- The queue of internal/jobqueue on two jobs.
use meristem.Base.{ℕ, true, none, some, [], ◌∷◌, ◌≡◌, ◌≢◌, refl, arith}
use meristem.Domain.{Uuid}
use meristem.JobQueue.{
  JobState, Job, Queue, claim_call, mark_call, queue_calls, candidate, lease_job, update_job,
  claim_next_in_tx,
}
use meristem.JobQueue.Fixed.{has_job, all_with}
use meristem.JobQueue.Exclusive.{is_finished, lease_exclusive, finished_stays}

abbrev job : Uuid → JobState → ℕ → Job
job id state at = record {
  id = id;
  kind = "dispatch";
  work_item_id = 1;
  state = state;
  payload = "{}";
  attempts = 0;
  lease_until = none;
  created_at = at;
  updated_at = at;
}

abbrev newer : Job
newer = job 8 JobState.pending 20

abbrev older : Job
older = job 9 JobState.pending 10

abbrev two_jobs : Queue
two_jobs = newer ∷ older ∷ []

abbrev after_first : Queue
after_first = newer ∷ lease_job 50 5 older ∷ []

first_claim : claim_next_in_tx 50 5 [] two_jobs ≡ (some (lease_job 50 5 older), after_first)
unfolding claim_next_in_tx candidate update_job
first_claim = refl

abbrev after_second : Queue
after_second = lease_job 60 5 newer ∷ lease_job 50 5 older ∷ []

second_claim :
    claim_next_in_tx 60 5 [] (queue_calls [] after_first)
    ≡ (some (lease_job 60 5 newer), after_second)
unfolding claim_next_in_tx candidate update_job queue_calls
second_claim = refl

lease_exclusive_example : newer.id ≢ older.id
lease_exclusive_example =
    lease_exclusive 50 5 [] two_jobs after_first (lease_job 50 5 older) [] 60 5 []
      (lease_job 60 5 newer) after_second first_claim refl (omega arith) second_claim

abbrev one_done : Queue
one_done = newer ∷ job 9 JobState.done 10 ∷ []

finished_stays_example :
    (has_job 9 (queue_calls (claim_call 50 5 [] ∷ mark_call 60 9 JobState.failed ∷ []) one_done)
      ≡ true)
    × (all_with
          (λ j. is_finished j.state)
          9
          (queue_calls (claim_call 50 5 [] ∷ mark_call 60 9 JobState.failed ∷ []) one_done)
        ≡ true)
    × (claim_next_in_tx 70 5 []
            (queue_calls (claim_call 50 5 [] ∷ mark_call 60 9 JobState.failed ∷ []) one_done)
          ≡ (some newer, one_done)
        → newer.id ≢ older.id)
finished_stays_example =
    finished_stays 9 one_done (claim_call 50 5 [] ∷ mark_call 60 9 JobState.failed ∷ []) 70 5 []
      newer one_done refl refl
