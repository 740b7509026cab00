-- ===== src/Crossnode/Queue.antt =====
-- internal/crossnode/queue.go and projectors.go: the queue of commands for nodes that nobody can
-- reach, and handleCrossnodeCommand of internal/api/crossnode.go, which fills it. The id of an event
-- (events.DeterministicID) is a parameter; Append of internal/events is its lookup of that id and
-- the projectors of this package.
pub mod Settled
pub mod Drain
use Prim.Native.Nat.{compare, Ordering}
use meristem.Base.{
  ℕ, ◌+◌, suc, zero, String, Bool, true, false, ◌&&◌, ◌||◌, not, Option, none, some, List, [], ◌∷◌,
  ◌++◌, ltb, leb, str_eq, ◌==◌, if◌then◌else◌, any, trim_space, length, select, codes, map,
}
use meristem.Base.Int.{ℤ, pos, negsuc}
use meristem.Domain.{Uuid, nil_uuid}
use meristem.Domain.QualifiedRef.{valid_node_id}

pub data CommandState : Type 0 where
  pending done failed : CommandState

pub record Row : Type 0 where
  pub id : Uuid
  pub target_node_id : String
  pub command_path : String
  pub command_body : String
  pub origin_idempotency_key : String
  pub origin_actor_token_id : Option Uuid
  pub queued_at : ℕ
  pub state : CommandState
  -- outcome_status_code, outcome_ok and acked_at
  pub outcome : Option (ℤ × Bool × ℕ)

-- The payload of command.queued.
pub record Queued : Type 0 where
  pub target_node_id : String
  pub command_path : String
  pub command_body : String
  pub origin_idempotency_key : String
  pub origin_actor_token_id : Option Uuid

-- The payload of command.acked.
pub record Acked : Type 0 where
  pub command_queue_id : Uuid
  pub target_node_id : String
  pub status_code : ℤ
  pub ok : Bool

pub data QueueEvent : Type 0 where
  queued : Queued → QueueEvent
  acked : Acked → QueueEvent

pub record QueueStore : Type 0 where
  pub log : List (Uuid × QueueEvent)
  pub rows : List Row

pub data QueueError : Type 0 where
  invalid_target_node_id unknown_command : QueueError
  projector_failed : String → QueueError

pub data Result {ℓ} (A : Type ℓ) : Type ℓ where
  ok : A → Result A
  err : QueueError → Result A

abbrev pub has_row : Uuid → List Row → Bool
has_row id rows = any (λ r. r.id == id) rows

abbrev pub new_row : Uuid → ℕ → Queued → Row
new_row id at p = record {
  id = id;
  target_node_id = p.target_node_id;
  command_path = p.command_path;
  command_body = if str_eq p.command_body "" then "{}" else p.command_body;
  origin_idempotency_key = p.origin_idempotency_key;
  origin_actor_token_id = p.origin_actor_token_id;
  queued_at = at;
  state = pending;
  outcome = none;
}

-- applyQueuedV1
unfoldable pub apply_queued : Uuid → ℕ → Queued → List Row → Result (List Row)
apply_queued id at p rows =
    if not (valid_node_id p.target_node_id)
    then err (projector_failed "target_node_id is not a DNS-safe node id")
    else if str_eq p.command_path ""
    then err (projector_failed "command_path is required")
    else if str_eq p.origin_idempotency_key ""
    then err (projector_failed "origin_idempotency_key is required")
    else if has_row id rows
    then ok rows
    else ok (rows ++ new_row id at p ∷ [])

unfoldable pub settle : ℕ → Acked → Row → Row
settle at p r =
    if r.id == p.command_queue_id
    then record r {
      state = if p.ok then done else failed;
      outcome = some (p.status_code, p.ok, at);
    }
    else r

-- applyAckedV1
unfoldable pub apply_acked : ℕ → Acked → List Row → Result (List Row)
apply_acked at p rows =
    if p.command_queue_id == nil_uuid
    then err (projector_failed "command_queue_id is required")
    else ok (map (settle at p) rows)

abbrev pub apply_event : Uuid → ℕ → QueueEvent → List Row → Result (List Row)
apply_event id at (queued p) rows = apply_queued id at p rows
apply_event id at (acked p) rows = apply_acked at p rows

abbrev pub logged : Uuid → QueueEvent → QueueStore → Result (List Row) → Result (Uuid × QueueStore)
logged id e s (err x) = err x
logged id e s (ok rows) = ok (id, record { log = s.log ++ (id, e) ∷ []; rows = rows })

abbrev is_blank : String → Bool
is_blank body = str_eq (trim_space body) ""

-- normalizeBody
abbrev pub normalize_body : String → String
normalize_body body = if is_blank body then "{}" else body

abbrev pub find_row : Uuid → List Row → Option Row
find_row id [] = none
find_row id (r ∷ rs) = if r.id == id then some r else find_row id rs

pub record EnqueueInput : Type 0 where
  pub target_node_id : String
  pub command_path : String
  pub command_body : String
  pub origin_idempotency_key : String
  pub origin_actor_token_id : Option Uuid

pub record AckInput : Type 0 where
  pub command_queue_id : Uuid
  pub status_code : ℤ
  pub ok : Bool

module _ (event_id : QueueEvent → String → Uuid) where
  -- The time is that of the event, the text the discriminator.
  unfoldable pub append : QueueEvent → String → ℕ → QueueStore → Result (Uuid × QueueStore)
  append e disc at s =
      let id = event_id e disc in
      if any (λ entry. entry.0 == id) s.log
      then ok (id, s)
      else logged id e s (apply_event id at e s.rows)

  unfoldable pub enqueue : EnqueueInput → String → ℕ → QueueStore → Result (Uuid × QueueStore)
  enqueue input disc at s =
      if not (valid_node_id input.target_node_id)
      then err invalid_target_node_id
      else append
          (queued (record {
            target_node_id = input.target_node_id;
            command_path = input.command_path;
            command_body = normalize_body input.command_body;
            origin_idempotency_key = input.origin_idempotency_key;
            origin_actor_token_id = input.origin_actor_token_id;
          }))
          disc at s

  abbrev pub ack_row : AckInput → String → ℕ → QueueStore → Option Row → Result (Uuid × QueueStore)
  ack_row input disc at s none = err unknown_command
  ack_row input disc at s (some row) =
      append
        (acked (record {
          command_queue_id = input.command_queue_id;
          target_node_id = row.target_node_id;
          status_code = input.status_code;
          ok = input.ok;
        }))
        disc at s

  unfoldable pub ack : AckInput → String → ℕ → QueueStore → Result (Uuid × QueueStore)
  ack input disc at s = ack_row input disc at s (find_row input.command_queue_id s.rows)

-- ORDER BY queued_at, id
abbrev pub drained_first : Row → Row → Bool
drained_first a b = ltb a.queued_at b.queued_at || (a.queued_at == b.queued_at && leb a.id b.id)

unfoldable pub insert_row : Row → List Row → List Row
insert_row r [] = r ∷ []
insert_row r (x ∷ xs) =
    let rest = insert_row r xs in if drained_first r x then r ∷ x ∷ xs else x ∷ rest

unfoldable pub sort_rows : List Row → List Row
unfolding insert_row
sort_rows [] = []
sort_rows (r ∷ rs) = insert_row r (sort_rows rs)

abbrev pub is_pending : CommandState → Bool
is_pending pending = true
is_pending _ = false

abbrev pub waits_for : String → Row → Bool
waits_for target r = str_eq r.target_node_id target && is_pending r.state

abbrev pub take {ℓ} : {A : Type ℓ} → ℕ → List A → List A
take zero xs = []
take (suc n) [] = []
take (suc n) (x ∷ xs) = x ∷ take n xs

-- A limit that is not positive is 100, and one above 500 is 500.
abbrev pub clamp_limit : ℤ → ℕ
clamp_limit (negsuc n) = 100
clamp_limit (pos n) = if ltb n 1 then 100 else if ltb 500 n then 500 else n

unfoldable pub pending_for_target : String → ℤ → QueueStore → Result (List Row)
unfolding sort_rows
pending_for_target target limit s =
    if not (valid_node_id target)
    then err invalid_target_node_id
    else ok (take (clamp_limit limit) (sort_rows (select (waits_for target) s.rows)))

-- What handleCrossnodeCommand answers: the code of an error, or whether it queued the command.
pub data Reply : Type 0 where
  relay_refused invalid_queue_target queue_unavailable queue_failed : Reply
  accepted_locally : Reply
  accepted_in_queue : Uuid → Reply

abbrev to_lower : ℕ → ℕ
to_lower c = if leb b'A' c && leb c b'Z' then c + 32 else c

abbrev codes_eq : List ℕ → List ℕ → Bool
codes_eq [] [] = true
codes_eq (c ∷ cs) (d ∷ ds) = c == d && codes_eq cs ds
codes_eq _ _ = false

-- headerIsTrue
unfoldable pub header_is_true : String → Bool
header_is_true v = codes_eq (map to_lower (codes (trim_space v))) (codes "true")

abbrev replied : QueueStore → Result (Uuid × QueueStore) → Reply × QueueStore
replied s (err invalid_target_node_id) = (invalid_queue_target, s)
replied s (err unknown_command) = (queue_failed, s)
replied s (err (projector_failed _)) = (queue_failed, s)
replied s (ok (id, s')) = (accepted_in_queue id, s')

module _ (event_id : QueueEvent → String → Uuid) where
  -- The two headers, the idempotency header and the decoded body of a request to this node; the
  -- queue service is there or not.
  unfoldable pub handle_command :
      String
      → Bool
      → String
      → String
      → String
      → String
      → String
      → Uuid
      → String
      → ℕ
      → QueueStore
      → Reply × QueueStore
  handle_command node_id configured relayed queue_header key path body actor disc at s =
      let queue_for = trim_space queue_header in
      if str_eq queue_for "" || str_eq queue_for node_id
      then (accepted_locally, s)
      else if header_is_true relayed
      then (relay_refused, s)
      else if not (valid_node_id queue_for)
      then (invalid_queue_target, s)
      else if not configured
      then (queue_unavailable, s)
      else replied s (
          enqueue event_id
            (record {
              target_node_id = queue_for;
              command_path = path;
              command_body = body;
              origin_idempotency_key = key;
              origin_actor_token_id = some actor;
            })
            disc at s)
