-- ===== src/Convergence/Registry.antt =====
-- The reducer registry: Register and Get of internal/convergence/convergence.go, and the canonical
-- reducers with DefaultRegistry of internal/convergence/reducers.go. The map by identity is an
-- association list.
pub mod Laws
use meristem.Base.{
  ℕ, String, Bool, true, false, Option, none, some, List, [], ◌∷◌, str_eq, if◌then◌else◌, any,
}
use meristem.Convergence.{
  Float64, Signal, Config, ConfigValue, Error, Result, Reducer, text, number, texts, nil_reducer,
  empty_identity, already_registered, unknown_reducer, ok, err,
}
use meristem.Convergence.Reducers.{
  kind_config, majority_vote, unanimous, threshold, all_pass_checklist,
}
use meristem.Convergence.Proposals.{checks_proposal, human_ack}

abbrev pub Registry : Type 0 → Type 0
Registry F = List (String × Reducer F)

module _ {F : Type 0} where
  abbrev pub majority_vote_reducer : String → Reducer F
  majority_vote_reducer kind = record {
    identity = "majority_vote";
    version = 1;
    reducer_config = kind_config kind;
    reduce = λ signals. ok (majority_vote kind signals);
  }

  abbrev pub unanimous_reducer : String → Reducer F
  unanimous_reducer kind = record {
    identity = "unanimous";
    version = 1;
    reducer_config = kind_config kind;
    reduce = λ signals. ok (unanimous kind signals);
  }

  abbrev required_config : List String → Config F
  required_config [] = []
  required_config (r ∷ rs) = ("required", texts (r ∷ rs)) ∷ []

  abbrev pub all_pass_checklist_reducer : List String → Reducer F
  all_pass_checklist_reducer required = record {
    identity = "all_pass_checklist";
    version = 1;
    reducer_config = required_config required;
    reduce = λ signals. ok (all_pass_checklist required signals);
  }

  abbrev pub checks_proposal_reducer : Reducer F
  checks_proposal_reducer = record {
    identity = "checks_proposal";
    version = 1;
    reducer_config = [];
    reduce = λ signals. ok (checks_proposal signals);
  }

  abbrev pub human_ack_reducer : Reducer F
  human_ack_reducer = record {
    identity = "human_ack";
    version = 1;
    reducer_config = [];
    reduce = λ signals. ok (human_ack signals);
  }

module _ (fl : Float64) where
  abbrev pub threshold_reducer : String → fl.F → Reducer fl.F
  threshold_reducer kind accept = record {
    identity = "threshold_mean";
    version = 1;
    reducer_config = ("accept", number accept) ∷ kind_config kind;
    reduce = λ signals. ok (threshold fl kind accept signals);
  }

module _ {F : Type 0} where
  unfoldable pub lookup : String → Registry F → Option (Reducer F)
  lookup id [] = none
  lookup id ((k, r) ∷ rs) = if str_eq k id then some r else lookup id rs

  -- The new registry, or the error that Register returns.
  unfoldable pub register : Option (Reducer F) → Registry F → Result (Registry F)
  register none reg = err nil_reducer
  register (some r) reg =
      if str_eq r.identity "" then err empty_identity else elim (lookup r.identity reg) [
        | some _ ↦ err (already_registered r.identity)
        | none ↦ ok ((r.identity, r) ∷ reg)
      ]

  -- `_ = reg.Register(r)`: an error leaves the registry as it is.
  abbrev try_register : Reducer F → Registry F → Registry F
  try_register r reg = elim (register (some r) reg) [ ok reg' ↦ reg' | err _ ↦ reg ]

  unfoldable pub get : Registry F → String → Result (Reducer F)
  get reg id = elim (lookup id reg) [ some r ↦ ok r | none ↦ err (unknown_reducer id) ]

  unfoldable pub default_registry : Registry F
  default_registry = try_register human_ack_reducer (
      try_register checks_proposal_reducer
        (try_register (unanimous_reducer "") (try_register (majority_vote_reducer "") [])))
