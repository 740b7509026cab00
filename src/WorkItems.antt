-- ===== src/WorkItems.antt =====
-- internal/workitems with the event writer of internal/events: what its operations ask of code
-- outside them, and the modules of the operations.
pub mod Projectors
pub mod Writer
pub mod Ancestry
pub mod Escalation
pub mod Budgets
pub mod Enforce
pub mod Service
pub mod Quiet
pub mod Graph
pub mod Recorded
pub mod Transitions
pub mod Examples
pub mod Derived
pub mod History
use meristem.Base.{ℕ, String, Option}
use meristem.Domain.{Uuid}
use meristem.Events.{Identity}

-- What GetCultivarRef of internal/registry returns of a cultivar.
pub record Cultivar : Type 0 where
  pub name : String
  pub version : ℕ
  pub max_children_per_item : ℕ
  pub max_concurrent_running_per_token : ℕ
  -- max_events_per_item_per_hour_by_class, 0 at a missing key.
  pub max_events_per_hour : String → ℕ

-- SHA-256 over the canonical form of an event's identity, uuid.NewSHA1 for the ids of an
-- escalation and of its human work item, uuid.UUID.String, and the cultivar registry, which a
-- request does not change.
pub record Env : Type 0 where
  pub digest : Identity → Uuid
  pub escalation_id : Uuid → String → String → Uuid
  pub human_work_item_id : Uuid → Uuid
  pub uuid_text : Uuid → String
  pub get_cultivar : String → Option Cultivar

-- What the request's context carries: the discriminator of idempotency.EventDiscriminator, "" where
-- there is none, and the id that newSubjectID gives.
pub record Context : Type 0 where
  pub discriminator : String
  pub subject_id : Uuid
