-- ===== src/Store.antt =====
-- The database that internal/workitems reads and writes: the events table and the tables that the
-- projectors derive from it, as lists of rows. A transaction is a function on it; an error loses
-- what the transaction wrote.
pub mod Keeps
pub mod Quiet
pub mod Triples
use meristem.Base.{
  ℕ, String, Bool, true, false, Option, none, some, List, [], ◌∷◌, ◌++◌, ◌≡◌, refl, ◌==◌,
  if◌then◌else◌,
}
use meristem.Domain.{Uuid, WorkItem, WorkItemState, EscalationRule}
use meristem.Events.{Event}

-- The errors of the package, of the writer and of the database's constraints.
pub data Error : Type 0 where
  not_found : Error
  invalid_request : String → Error
  invalid_state : WorkItemState → Error
  invalid_transition : WorkItemState → WorkItemState → Error
  relation_cycle : Error
  convergence_checks_required : Error
  unexpected_event_dedupe : Error
  xylem_budget_exhausted : String → Error
  unknown_cultivar : String → Error
  invalid_spec : String → Error
  projector_failed : String → Error
  constraint : String → Error
  actor_token_missing : Error
  unclassified : Error

pub data Result {ℓ} (A : Type ℓ) : Type ℓ where
  ok : A → Result A
  err : Error → Result A

-- work_items and work_item_relations, a relation as (parent_id, child_id).
pub record Tables : Type 0 where
  pub items : List WorkItem
  pub relations : List (Uuid × Uuid)

pub record Store : Type 0 where
  -- In the order of insertion.
  pub events : List Event
  pub tables : Tables
  pub open tables use *
  -- The ids of the tokens table.
  pub tokens : List Uuid
  -- now(), in microseconds: fixed in a transaction, as in Postgres.
  pub now : ℕ

abbrev pub Tx : Type 0 → Type 0
Tx A = Store → Result (A × Store)

infixl 5 ◌>>=◌ ◌>>◌
abbrev pub ◌>>=◌ : {A B : Type 0} → Tx A → (A → Tx B) → Tx B
◌>>=◌ m f s = elim (m s) [ ok (a, s') ↦ f a s' | err e ↦ err e ]

abbrev pub ◌>>◌ : {A B : Type 0} → Tx A → Tx B → Tx B
m >> k = m >>= λ _. k

abbrev pub pure : {A : Type 0} → A → Tx A
pure a s = ok (a, s)

abbrev pub fail : {A : Type 0} → Error → Tx A
fail e s = err e

abbrev pub gets : {A : Type 0} → (Store → A) → Tx A
gets f s = ok (f s, s)

abbrev pub lift : {A : Type 0} → Result A → Tx A
lift r s = elim r [ ok a ↦ ok (a, s) | err e ↦ err e ]

-- A transaction of a service method: its state is kept if it commits, and an `exhausted` budget
-- commits what it wrote and still returns an error.
abbrev pub run_tx : {A : Type 0} → Tx (Result A) → Store → Result A × Store
run_tx m s = elim (m s) [ ok (r, s') ↦ (r, s') | err e ↦ (err e, s) ]

unfoldable pub find_item : Uuid → List WorkItem → Option WorkItem
find_item id [] = none
find_item id (w ∷ ws) = if w.id == id then some w else find_item id ws
