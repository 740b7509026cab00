-- ===== src/Crossnode/Queue/Settled.antt =====
-- A command that was acknowledged leaves the queue for good.
use meristem.Base.{
  ℕ, String, Bool, true, false, ◌&&◌, not, Option, none, some, List, [], ◌∷◌, ◌++◌, map, ◌≡◌, inl,
  inr, refl, sym, ◌∙◌, subst, arith, any, any-append, any_mono, select, ◌==◌, ==_iff, Bool-cases,
}
use meristem.Base.Int.{ℤ}
use meristem.Domain.{Uuid}
use meristem.Domain.QualifiedRef.{valid_node_id}
use meristem.Crossnode.Queue.{
  Row, QueueEvent, QueueStore, Result, ok, err, Acked, Queued, queued, acked, has_row, apply_queued,
  apply_acked, apply_event, settle, new_row, append, enqueue, ack, ack_row, find_row, logged,
  is_pending, waits_for, sort_rows, clamp_limit, pending_for_target, EnqueueInput, AckInput,
}
use meristem.Crossnode.Queue.Drain.{any-take, any-select, any-sort_rows, taken}

-- A call of the service, with its discriminator and the time of its event.
pub data Call : Type 0 where
  enqueueing : EnqueueInput → String → ℕ → Call
  acking : AckInput → String → ℕ → Call

abbrev after : QueueStore → Result (Uuid × QueueStore) → QueueStore
after s (ok (id, s')) = s'
after s (err e) = s

module _ (event_id : QueueEvent → String → Uuid) where
  abbrev pub call : Call → QueueStore → QueueStore
  call (enqueueing input disc at) s = after s (enqueue event_id input disc at s)
  call (acking input disc at) s = after s (ack event_id input disc at s)

  unfoldable pub calls : List Call → QueueStore → QueueStore
  calls [] s = s
  calls (c ∷ cs) s = calls cs (call c s)

-- The row is there, and no row of its identifier is pending.
abbrev waits : Uuid → List Row → Bool
waits id rows = any (λ r. r.id == id && is_pending r.state) rows

abbrev Settled : Uuid → List Row → Type 0
Settled id rows = (has_row id rows ≡ true) × (waits id rows ≡ false)

has_row-settle :
    (id : Uuid) (at : ℕ) (p : Acked) (rows : List Row)
    → has_row id (map (settle at p) rows) ≡ has_row id rows
unfolding settle
has_row-settle id at p [] = refl
has_row-settle id at p (r ∷ rs) = ground (arith, has_row-settle id at p rs)

waits-settle :
    (id : Uuid) (at : ℕ) (p : Acked) (rows : List Row)
    → waits id (map (settle at p) rows) ≡ (waits id rows && not (p.command_queue_id == id))
unfolding settle
waits-settle id at p [] = refl
waits-settle id at p (r ∷ rs) = ground (arith, waits-settle id at p rs)

Settled-append :
    (id : Uuid) (r : Row) (rows : List Row)
    → Settled id rows
    → (r.id == id) ≡ false
    → Settled id (rows ++ r ∷ [])
Settled-append id r rows s e = (
  any-append (λ (r : Row). r.id == id) rows (r ∷ []) ∙ ground (arith, s),
  any-append (λ (r : Row). r.id == id && is_pending r.state) rows (r ∷ []) ∙ ground (arith, s, e),
)

apply_queued-Settled :
    (id row : Uuid) (at : ℕ) (p : Queued) (rows : List Row) {rows' : List Row}
    → apply_queued row at p rows ≡ ok rows'
    → Settled id rows
    → Settled id rows'
unfolding apply_queued
apply_queued-Settled id row at p rows h s = elim (Bool-cases (row == id)) [
  | inl e ↦
      let there : has_row row rows ≡ true =
        subst (λ x. has_row x rows ≡ true) (sym ((==_iff row id).0 e)) s.0 in
      ground (arith, h, there)
  | inr e ↦ ground (arith, h, Settled-append id (new_row row at p) rows s e)
]

apply_acked-Settled :
    (id : Uuid) (at : ℕ) (p : Acked) (rows : List Row) {rows' : List Row}
    → apply_acked at p rows ≡ ok rows'
    → Settled id rows
    → Settled id rows'
unfolding apply_acked
apply_acked-Settled id at p rows h s =
    ground (arith, h, has_row-settle id at p rows, waits-settle id at p rows)

apply_event-Settled :
    (id event : Uuid) (at : ℕ) (e : QueueEvent) (rows : List Row) {rows' : List Row}
    → apply_event event at e rows ≡ ok rows'
    → Settled id rows
    → Settled id rows'
apply_event-Settled id event at (queued p) rows h s = apply_queued-Settled id event at p rows h s
apply_event-Settled id event at (acked p) rows h s = apply_acked-Settled id at p rows h s

-- The rows that an acknowledgement leaves settled.
apply_acked-settles :
    (at : ℕ) (p : Acked) (rows : List Row) {rows' : List Row}
    → apply_acked at p rows ≡ ok rows'
    → has_row p.command_queue_id rows ≡ true
    → Settled p.command_queue_id rows'
unfolding apply_acked
apply_acked-settles at p rows h k = ground (
  arith,
  h,
  has_row-settle p.command_queue_id at p rows,
  waits-settle p.command_queue_id at p rows,
)

find_row-has_row :
    (id : Uuid) (rows : List Row) {row : Row} → find_row id rows ≡ some row → has_row id rows ≡ true
find_row-has_row id [] h = cc
find_row-has_row id (r ∷ rs) h = elim (Bool-cases (r.id == id)) [
  | inl e ↦ rw e
  | inr e ↦ rw e (find_row-has_row id rs (rw e at h))
]

logged-Settled :
    (id event : Uuid) (e : QueueEvent) (s : QueueStore) (o : Result (List Row))
    → ((rows : List Row) → o ≡ ok rows → Settled id rows)
    → Settled id s.rows
    → Settled id (after s (logged event e s o)).rows
logged-Settled id event e s (err x) f k = k
logged-Settled id event e s (ok rows) f k = f rows refl

module _ (event_id : QueueEvent → String → Uuid) where
  append-Settled :
      (id : Uuid) (e : QueueEvent) (disc : String) (at : ℕ) (s : QueueStore)
      → Settled id s.rows
      → Settled id (after s (append event_id e disc at s)).rows
  unfolding append
  append-Settled id e disc at s k =
      elim (Bool-cases (any (λ entry. entry.0 == event_id e disc) s.log)) [
        | inl old ↦ rw old k
        | inr new ↦ rw new (
            logged-Settled id (event_id e disc) e s (apply_event (event_id e disc) at e s.rows)
              (λ rows h. apply_event-Settled id (event_id e disc) at e s.rows h k) k)
      ]

  call-Settled :
      (id : Uuid) (c : Call) (s : QueueStore)
      → Settled id s.rows
      → Settled id (call event_id c s).rows
  unfolding enqueue ack
  call-Settled id (enqueueing input disc at) s k =
      elim (Bool-cases (valid_node_id input.target_node_id)) [
        | inl v ↦ rw v (append-Settled id _ disc at s k)
        | inr v ↦ rw v k
      ]
  call-Settled id (acking input disc at) s k = row (find_row input.command_queue_id s.rows)
    where
      row : (o : Option Row) → Settled id (after s (ack_row event_id input disc at s o)).rows
      row none = k
      row (some r) = append-Settled id _ disc at s k

  calls-Settled :
      (id : Uuid) (cs : List Call) (s : QueueStore)
      → Settled id s.rows
      → Settled id (calls event_id cs s).rows
  unfolding calls
  calls-Settled id [] s k = k
  calls-Settled id (c ∷ cs) s k = calls-Settled id cs (call event_id c s) (call-Settled id c s k)

-- What a drain returns was pending in the table.
drained_waits :
    (id : Uuid) (target : String) (limit : ℤ) (s : QueueStore) (out : List Row)
    → pending_for_target target limit s ≡ ok out
    → has_row id out ≡ true
    → waits id s.rows ≡ true
unfolding pending_for_target
drained_waits id target limit s out h k =
    let waiting = select (waits_for target) s.rows in
    let e = taken (not (valid_node_id target)) _ out h in
    let found =
      any-take (λ (r : Row). r.id == id) (clamp_limit limit) (sort_rows waiting)
        (subst (λ xs. has_row id xs ≡ true) (sym e) k) in
    any_mono (λ (r : Row). r.id == id && is_pending r.state) (λ r. waits_for target r && r.id == id)
      s.rows (λ r w. ground (arith, w))
      (sym (any-select (λ (r : Row). r.id == id) (waits_for target) s.rows)
        ∙ (sym (any-sort_rows (λ (r : Row). r.id == id) waiting) ∙ found))

logged-rows :
    (id : Uuid) (e : QueueEvent) (s : QueueStore) (o : Result (List Row)) {event : Uuid}
    {s' : QueueStore}
    → logged id e s o ≡ ok (event, s')
    → o ≡ ok s'.rows
logged-rows id e s (err x) h = cc
logged-rows id e s (ok rows) h = ground arith

module _ (event_id : QueueEvent → String → Uuid) where
  id_of :
      {id event : Uuid} {s s' : QueueStore}
      → ◌≡◌ {A = Result (Uuid × QueueStore)} (ok (id, s)) (ok (event, s'))
      → id ≡ event
  id_of h = ground arith

  append-fresh :
      (e : QueueEvent) (disc : String) (at : ℕ) (s : QueueStore) {event : Uuid} {s' : QueueStore}
      → append event_id e disc at s ≡ ok (event, s')
      → any (λ entry. entry.0 == event) s.log ≡ false
      → apply_event (event_id e disc) at e s.rows ≡ ok s'.rows
  unfolding append
  append-fresh e disc at s h n =
      elim (Bool-cases (any (λ entry. entry.0 == event_id e disc) s.log)) [
        | inl old ↦
            let same = id_of (rw old at h) in
            cc (n, subst (λ x. any (λ entry. entry.0 == x) s.log ≡ true) same old)
        | inr new ↦ logged-rows (event_id e disc) e s _ (rw new at h)
      ]

  ack-settles :
      (input : AckInput) (disc : String) (at : ℕ) (s : QueueStore) {event : Uuid} {s' : QueueStore}
      → ack event_id input disc at s ≡ ok (event, s')
      → any (λ entry. entry.0 == event) s.log ≡ false
      → Settled input.command_queue_id s'.rows
  unfolding ack
  ack-settles input disc at s h n = row (find_row input.command_queue_id s.rows) refl h n
    where
      row :
          (o : Option Row) {event : Uuid} {s' : QueueStore}
          → find_row input.command_queue_id s.rows ≡ o
          → ack_row event_id input disc at s o ≡ ok (event, s')
          → any (λ entry. entry.0 == event) s.log ≡ false
          → Settled input.command_queue_id s'.rows
      row none f h n = cc
      row (some r) f h n =
          apply_acked-settles at _ s.rows (append-fresh _ disc at s h n)
            (find_row-has_row input.command_queue_id s.rows f)

-- An acknowledgement that is recorded, and was not there before, takes its command off the queue
-- for good: after any calls that follow, no node that drains its queue is given that command.
pub acked_stays :
    (event_id : QueueEvent → String → Uuid) (input : AckInput) (disc : String) (at : ℕ)
    (s s' : QueueStore) (event : Uuid) (cs : List Call) (target : String) (limit : ℤ)
    (out : List Row)
    → ack event_id input disc at s ≡ ok (event, s')
    → any (λ entry. entry.0 == event) s.log ≡ false
    → pending_for_target target limit (calls event_id cs s') ≡ ok out
    → has_row input.command_queue_id out ≡ false
acked_stays event_id input disc at s s' event cs target limit out h n d =
    elim (Bool-cases (has_row input.command_queue_id out)) [
      | inr e ↦ e
      | inl e ↦ cc (
        (calls-Settled event_id input.command_queue_id cs s'
            (ack-settles event_id input disc at s h n)).1,
        drained_waits input.command_queue_id target limit (calls event_id cs s') out d e,
      )
    ]
