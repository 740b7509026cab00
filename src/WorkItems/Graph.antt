-- ===== src/WorkItems/Graph.antt =====
-- work_item_relations as a graph: no cycles, and its ends are rows of work_items.
pub mod Appends
pub mod Budgets
pub mod Calls
pub mod Safety
use meristem.Base.{Bool, true, false, ◌≡◌}
use meristem.Domain.{Uuid}
use meristem.Store.{Tables, Store}
use meristem.WorkItems.{Env}
use meristem.WorkItems.Escalation.{escalation_exists}
use meristem.WorkItems.Projectors.{has_relation}
use meristem.WorkItems.Projectors.Rows.{has_item}
use meristem.WorkItems.Ancestry.{Ancestor}
use meristem.WorkItems.Ancestry.Acyclic.{IsAcyclic}

pub record IsGraph (t : Tables) : Type 0 where
  pub acyclic : IsAcyclic t.relations
  pub parent_row : (a x : Uuid) → has_relation t.relations a x ≡ true → has_item t.items a ≡ true
  pub child_row : (a x : Uuid) → has_relation t.relations a x ≡ true → has_item t.items x ≡ true

-- The relation (p, c) can be added.
pub record IsOpenFor (p c : Uuid) (t : Tables) : Type 0 where
  pub graph : IsGraph t
  pub no_cycle : ¬ Ancestor t.relations c p

-- The human work item of an escalation that was not requested is not there.
abbrev pub HumansAreFresh : Env → Store → Type 0
HumansAreFresh env s =
    (id : Uuid)
    → escalation_exists id s.events ≡ false
    → has_item s.items (env.human_work_item_id id) ≡ false

-- What an operation on the item `p` finds.
pub record IsReady (env : Env) (p : Uuid) (s : Store) : Type 0 where
  pub graph : IsGraph s.tables
  pub there : has_item s.items p ≡ true
  pub humans : HumansAreFresh env s
