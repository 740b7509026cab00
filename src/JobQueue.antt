-- ===== src/JobQueue.antt =====
-- internal/jobqueue: the durable worker queue, its rows in a list. The time of a call is now() of
-- its transaction, in microseconds; the rows that other transactions hold are given by their ids.
pub mod Leases
pub mod Fixed
pub mod Exclusive
pub mod Examples
use meristem.Base.{
  ℕ, zero, suc, ◌+◌, ◌*◌, ◌/◌, String, Bool, true, false, ◌&&◌, ◌||◌, not, Option, none, some, List,
  [], ◌∷◌, ◌++◌, ◌==◌, ltb, leb, if◌then◌else◌, any, contains_id,
}
use meristem.Base.Int.{ℤ, pos, negsuc}
use meristem.Domain.{Uuid}
use meristem.Events.{SubjectKind}

pub data JobState : Type 0 where
  pending leased done failed canceled : JobState

pub record Job : Type 0 where
  pub id : Uuid
  pub kind : String
  pub work_item_id : Uuid
  pub state : JobState
  pub payload : String
  pub attempts : ℕ
  pub lease_until : Option ℕ
  pub created_at : ℕ
  pub updated_at : ℕ

abbrev pub Queue : Type 0
Queue = List Job

-- The WHERE of the candidate: no comparison holds of NULL.
abbrev pub ready : ℕ → JobState → Option ℕ → Bool
ready now JobState.pending until = true
ready now JobState.leased none = false
ready now JobState.leased (some until) = leb until now
ready now _ until = false

abbrev pub eligible : ℕ → List Uuid → Job → Bool
eligible now locked j = ready now j.state j.lease_until && not (contains_id locked j.id)

-- ORDER BY created_at ASC, id ASC
abbrev pub before : Job → Job → Bool
before a b = ltb a.created_at b.created_at || (a.created_at == b.created_at && ltb a.id b.id)

abbrev pub first_of : Job → Option Job → Job
first_of j none = j
first_of j (some k) = if before k j then k else j

-- FOR UPDATE SKIP LOCKED LIMIT 1
unfoldable pub candidate : ℕ → List Uuid → Queue → Option Job
candidate now locked [] = none
candidate now locked (j ∷ js) =
    let rest = candidate now locked js in
    if eligible now locked j then some (first_of j rest) else rest

abbrev pub lease_job : ℕ → ℕ → Job → Job
lease_job now millis j = record j {
  state = JobState.leased;
  attempts = j.attempts + 1;
  lease_until = some (now + millis * 1000);
  updated_at = now;
}

unfoldable pub update_job : Uuid → (Job → Job) → Queue → Queue
update_job id f [] = []
update_job id f (j ∷ js) = (if j.id == id then f j else j) ∷ update_job id f js

abbrev claim_candidate : ℕ → ℕ → Queue → Option Job → Option Job × Queue
claim_candidate now millis q none = (none, q)
claim_candidate now millis q (some j) =
    (some (lease_job now millis j), update_job j.id (lease_job now millis) q)

-- claimNextInTx: the job returned and the rows after it.
unfoldable pub claim_next_in_tx : ℕ → ℕ → List Uuid → Queue → Option Job × Queue
claim_next_in_tx now millis locked q = claim_candidate now millis q (candidate now locked q)

-- lease.Milliseconds() of nanoseconds, at least 1.
abbrev pub lease_millis : ℕ → ℕ
lease_millis lease = let millis = lease / 1_000_000 in if millis == 0 then 1 else millis

-- ClaimNext: `none` is ErrInvalidLease.
unfoldable pub claim_next : ℕ → ℤ → List Uuid → Queue → Option (Option Job) × Queue
unfolding claim_next_in_tx
claim_next now (negsuc _) locked q = (none, q)
claim_next now (pos lease) locked q =
    if lease == 0
    then (none, q)
    else let claimed = claim_next_in_tx now (lease_millis lease) locked q in
      (some claimed.0, claimed.1)

abbrev pub is_leased : JobState → Bool
is_leased JobState.leased = true
is_leased _ = false

abbrev pub finish_job : ℕ → JobState → Job → Job
finish_job now to j = record j { state = to; lease_until = none; updated_at = now }

unfoldable pub finish : ℕ → Uuid → JobState → Queue → Queue
finish now id to [] = []
finish now id to (j ∷ js) =
    (if j.id == id && is_leased j.state then finish_job now to j else j) ∷ finish now id to js

-- markTerminal, which MarkDone, MarkFailed and MarkCanceled call: `none` is pgx.ErrNoRows.
unfoldable pub mark_terminal : ℕ → Uuid → JobState → Queue → Option Queue
unfolding finish
mark_terminal now id to q =
    if any (λ j. j.id == id && is_leased j.state) q then some (finish now id to q) else none

abbrev pub is_work_item : SubjectKind → Bool
is_work_item SubjectKind.work_item = true
is_work_item _ = false

-- dispatchRequestedProjector.Apply on the event `id` at `at`, with the ids of the rows of
-- work_items: `none` is an error.
unfoldable pub dispatch : List Uuid → ℕ → Uuid → SubjectKind → Uuid → String → Queue → Option Queue
dispatch items at id kind subject payload q =
    if not (is_work_item kind)
    then none
    else if any (λ j. j.id == id) q
    then some q
    else if not (contains_id items subject)
    then none
    else some (
        q
        ++ record {
          id = id;
          kind = "dispatch";
          work_item_id = subject;
          state = JobState.pending;
          payload = payload;
          attempts = 0;
          lease_until = none;
          created_at = at;
          updated_at = at;
        }
          ∷ [])

-- The calls that write the queue.
pub data QueueCall : Type 0 where
  claim_call : ℕ → ℕ → List Uuid → QueueCall
  mark_call : ℕ → Uuid → JobState → QueueCall
  dispatch_call : List Uuid → ℕ → Uuid → SubjectKind → Uuid → String → QueueCall

-- An error leaves the rows as they are.
abbrev or_same : Queue → Option Queue → Queue
or_same q none = q
or_same q (some q') = q'

unfoldable pub queue_call : QueueCall → Queue → Queue
queue_call (claim_call now millis locked) q = (claim_next_in_tx now millis locked q).1
queue_call (mark_call now id to) q = or_same q (mark_terminal now id to q)
queue_call (dispatch_call items at id kind subject payload) q =
    or_same q (dispatch items at id kind subject payload q)

unfoldable pub queue_calls : List QueueCall → Queue → Queue
unfolding queue_call
queue_calls [] q = q
queue_calls (c ∷ cs) q = queue_calls cs (queue_call c q)
