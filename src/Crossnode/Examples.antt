-- ===== src/Crossnode/Examples.antt =====
-- internal/crossnode on concrete nodes and queues.
use meristem.Base.{
  ℕ, ◌+◌, ◌<◌, ◌≤◌, String, Bool, true, false, ◌&&◌, none, some, List, [], ◌∷◌, ◌++◌, ◌≡◌, ◌⊎◌,
  refl, any, all, length, ◌==◌, if◌then◌else◌, concat, trim_space,
}
use meristem.Base.Int.{pos}
use meristem.Domain.{Uuid}
use meristem.Domain.QualifiedRef.{valid_node_id}
use meristem.Crossnode.{
  Node, Candidate, direct, relay, queue, ok, err, no_route, cooldown_window, select, select_from,
  by_id, hops, direct_route, route_key, cooling, failed_at,
}
use meristem.Crossnode.Deliver.{
  Command, Post, Response, failed, answered, deliver, walk, post_of, trim_slashes,
  all_routes_failed,
}
use meristem.Crossnode.Selected.{has_key}
use meristem.Crossnode.Retry.{pushed, select-deliver}
use meristem.Crossnode.Answers.{AllGiveUp, Answered, deliver_ends}
use meristem.Crossnode.Queue as Queue
use meristem.Crossnode.Queue.{
  QueueStore, QueueEvent, Row, EnqueueInput, AckInput, enqueue, ack, append, apply_queued,
  apply_acked, settle, pending_for_target, sort_rows, insert_row, waits_for, clamp_limit,
}
use meristem.Crossnode.Queue.Drain.{in_order, pending_for_target-bounds}
use meristem.Crossnode.Queue.Settled.{calls, acked_stays, enqueueing}

abbrev node : String → String → List String → Node
node id url vias = record { node_id = id; direct_url = some url; relay_via = vias }

abbrev nodes : List Node
nodes = node "home" "http://home" ("hub" ∷ []) ∷ node "hub" "http://hub" [] ∷ []

abbrev routes : List Candidate
routes =
    record { kind = direct; url = "http://home"; via = ""; route_key = "direct|home" }
    ∷ record { kind = relay; url = "http://hub"; via = "hub"; route_key = "relay|home|hub" }
    ∷ record { kind = queue; url = "http://hub"; via = "hub"; route_key = "queue|home|hub" }
    ∷ []

abbrev command : Command
command = record {
  target_node_id = "home";
  idempotency_key = "k1";
  path = "/v1/work-items";
  body = "{}";
}

abbrev unreachable : ℕ → Post → Response
unreachable n p = failed

-- The first route fails, the second refuses the command.
abbrev refusing : ℕ → Post → Response
refusing n p = if n == 0 then failed else answered 404 "no"

selected : select nodes "home" [] 0 ≡ ok routes
unfolding select select_from by_id hops direct_route route_key cooling failed_at concat
selected = refl

all_fail : (deliver unreachable routes command (some "{}") [] 0).1 ≡ some all_routes_failed
unfolding deliver walk post_of trim_slashes
all_fail = refl

select-deliver_example :
    let after = (deliver unreachable routes command (some "{}") [] 0).0.cooldowns in
    (select nodes "home" after 0 ≡ err no_route)
    × ((later : ℕ) (ds : List Candidate) (key : String)
        → later < 0 + cooldown_window
        → select nodes "home" after later ≡ ok ds
        → has_key routes key ≡ true
        → has_key ds key ≡ false)
    × ((later : ℕ)
        → 0 + cooldown_window ≤ later
        → (ds : List Candidate) × (select nodes "home" after later ≡ ok ds)
          × ((key : String) → has_key routes key ≡ true → has_key ds key ≡ true))
select-deliver_example =
    select-deliver unreachable nodes "home" [] 0 routes command "{}" selected all_fail

deliver_ends_example :
    let end = deliver refusing routes command (some "{}") [] 0 in
    (AllGiveUp refusing command "{}" 0 0 routes
      × (end.1 ≡ some all_routes_failed)
      × (end.0.delivered ≡ false)
      × (end.0.cooldowns ≡ pushed 0 routes []))
    ⊎ Answered refusing command "{}" 0 0 routes [] end
deliver_ends_example = deliver_ends refusing command "{}" 0 routes []

-- The id of an acknowledgement is 2, that of a queued command 1.
abbrev event_id : QueueEvent → String → Uuid
event_id (Queue.queued p) disc = 1
event_id (Queue.acked p) disc = 2

abbrev no_rows : QueueStore
no_rows = record { log = []; rows = [] }

abbrev input : EnqueueInput
input = record {
  target_node_id = "home";
  command_path = "/v1/work-items";
  command_body = " ";
  origin_idempotency_key = "k1";
  origin_actor_token_id = none;
}

abbrev row : Row
row = record {
  id = 1;
  target_node_id = "home";
  command_path = "/v1/work-items";
  command_body = "{}";
  origin_idempotency_key = "k1";
  origin_actor_token_id = none;
  queued_at = 5;
  state = Queue.pending;
  outcome = none;
}

abbrev queued_store : QueueStore
queued_store = record {
  log =
      (
        1,
        Queue.queued (record {
          target_node_id = "home";
          command_path = "/v1/work-items";
          command_body = "{}";
          origin_idempotency_key = "k1";
          origin_actor_token_id = none;
        }),
      )
      ∷ [];
  rows = row ∷ [];
}

queues : enqueue event_id input "" 5 no_rows ≡ Queue.ok (1, queued_store)
unfolding enqueue append apply_queued valid_node_id trim_space
queues = refl

abbrev ack_input : AckInput
ack_input = record { command_queue_id = 1; status_code = pos 201; ok = true }

abbrev acked_store : QueueStore
acked_store = record {
  log =
      queued_store.log
      ++ (
        2,
        Queue.acked (record {
          command_queue_id = 1;
          target_node_id = "home";
          status_code = pos 201;
          ok = true;
        }),
      )
        ∷ [];
  rows = record row { state = Queue.done; outcome = some (pos 201, true, 9) } ∷ [];
}

acknowledges : ack event_id ack_input "" 9 queued_store ≡ Queue.ok (2, acked_store)
unfolding ack append apply_acked settle
acknowledges = refl

drains : pending_for_target "home" (pos 10) queued_store ≡ Queue.ok (row ∷ [])
unfolding pending_for_target sort_rows insert_row valid_node_id
drains = refl

pending_for_target-bounds_example :
    (length (row ∷ []) ≤ 500)
    × ((n : ℕ) → pos 10 ≡ pos n → 1 ≤ n → length (row ∷ []) ≤ n)
    × (all (waits_for "home") (row ∷ []) ≡ true)
    × (in_order (row ∷ []) ≡ true)
    × (length (row ∷ []) < clamp_limit (pos 10)
        → (p : Row → Bool) → any (λ r. waits_for "home" r && p r) queued_store.rows ≡ true
        → any p (row ∷ []) ≡ true)
pending_for_target-bounds_example =
    pending_for_target-bounds "home" (pos 10) queued_store (row ∷ []) drains

-- Enqueueing the same command again leaves the queue empty.
drained :
    pending_for_target "home" (pos 10) (calls event_id (enqueueing input "" 12 ∷ []) acked_store)
    ≡ Queue.ok []
unfolding calls enqueue append valid_node_id trim_space pending_for_target sort_rows insert_row
drained = refl

acked_stays_example : Queue.has_row 1 [] ≡ false
acked_stays_example =
    acked_stays event_id ack_input "" 9 queued_store acked_store 2 (enqueueing input "" 12 ∷ [])
      "home" (pos 10) [] acknowledges refl drained
