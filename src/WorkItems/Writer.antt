-- ===== src/WorkItems/Writer.antt =====
-- internal/events/events.go: Writer.Append.
pub mod Replay
pub mod Outcome
use meristem.Base.{
  ℕ, String, Bool, true, false, not, Option, none, some, List, [], ◌∷◌, ◌++◌, ◌==◌, if◌then◌else◌,
  any, str_eq,
}
use meristem.Domain.{Uuid, nil_uuid, source_valid}
use meristem.Events.{SubjectKind, Spec, Event, kind_of}
use meristem.Store.{Error, Result, Tables, Store, Tx, ok, err, invalid_spec}
use meristem.WorkItems.{Env}
use meristem.WorkItems.Projectors.{project}

-- Spec.validate. The kinds of this development are never empty.
abbrev subject_kind_empty : SubjectKind → Bool
subject_kind_empty (SubjectKind.other s) = str_eq s ""
subject_kind_empty _ = false

unfoldable pub validate : Spec → Option Error
validate spec =
    if subject_kind_empty spec.subject_kind
    then some (invalid_spec "events: SubjectKind is required")
    else if spec.subject_id == nil_uuid
    then some (invalid_spec "events: SubjectID is required")
    else if not (source_valid spec.source)
    then some (invalid_spec "events: Source is not one of human|agent|system")
    else none

abbrev pub event_exists : Uuid → List Event → Bool
event_exists id = any (λ e. e.id == id)

abbrev pub event_of : Uuid → ℕ → Spec → Event
event_of id at spec = record {
  id = id;
  occurred_at = at;
  actor_token_id = spec.actor_token_id;
  source = spec.source;
  subject_kind = spec.subject_kind;
  subject_id = spec.subject_id;
  payload = spec.payload;
}

record_event : Event → Store → Result Tables → Result ((Uuid × Bool) × Store)
record_event e s (err x) = err x
record_event e s (ok t) = ok ((e.id, true), record s { events = s.events ++ e ∷ []; tables = t })

-- INSERT … ON CONFLICT (id) DO NOTHING, then the projectors of a row that was inserted.
insert_event : Uuid → Spec → Store → Bool → Result ((Uuid × Bool) × Store)
unfolding record_event
insert_event id spec s true = ok ((id, false), s)
insert_event id spec s false =
    record_event (event_of id s.now spec) s (project (event_of id s.now spec) s.tables)

append_validated : Env → Spec → Store → Option Error → Result ((Uuid × Bool) × Store)
unfolding insert_event
append_validated env spec s (some e) = err e
append_validated env spec s none =
    insert_event (env.digest spec.identity) spec s
      (event_exists (env.digest spec.identity) s.events)

-- The event's id, and whether it is fresh. An id that is there already changes nothing.
unfoldable pub append : Env → Spec → Tx (Uuid × Bool)
unfolding append_validated
append env spec s = append_validated env spec s (validate spec)
