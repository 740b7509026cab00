-- ===== src/Convergence.antt =====
-- internal/convergence: the evidence that a reducer folds, the verdicts, and the reducer interface.
-- The modules below hold the reducers, the run of one, the registry and the patience budget.
pub mod Reducers
pub mod Proposals
pub mod Run
pub mod Registry
pub mod Budget
pub mod Examples
use meristem.Base.{ℕ, String, Bool, Option, List, str_eq}
use meristem.Domain.{Disposition}

-- The float64 operations that the Threshold reducer calls.
pub record Float64 : Type 1 where
  pub F : Type 0
  pub zero : F
  pub add : F → F → F
  -- x / float64(n)
  pub over : F → ℕ → F
  pub at_least : F → F → Bool
  -- The verb %.4f.
  pub show : F → String

pub record SignalSource : Type 0 where
  pub model : String
  pub prompt_version : String
  pub sample_id : String

pub record Signal (F : Type 0) : Type 0 where
  pub kind : String
  pub source : SignalSource
  pub pass : Option Bool
  pub score : Option F
  pub raw : String

pub record Verdict : Type 0 where
  pub disposition : Disposition
  pub reason : String

pub data ConfigValue (F : Type 0) : Type 0 where
  text : String → ConfigValue F
  number : F → ConfigValue F
  texts : List String → ConfigValue F

-- A reducer's parameters by name. A nil map, or none at all, is [].
abbrev pub Config : Type 0 → Type 0
Config F = List (String × ConfigValue F)

pub data Error : Type 0 where
  nil_reducer : Error
  bad_attempt : ℕ → Error
  digest_failed : Error
  reduce_failed : String → ℕ → Error → Error
  invalid_disposition : String → Disposition → Error
  empty_identity : Error
  already_registered : String → Error
  unknown_reducer : String → Error
  misuse : String → Error

pub data Result {ℓ} (A : Type ℓ) : Type ℓ where
  ok : A → Result A
  err : Error → Result A

-- The Reducer interface with ConfiguredReducer: code that the registry and the run only call.
pub record Reducer (F : Type 0) : Type 0 where
  pub identity : String
  pub version : ℕ
  pub reducer_config : Config F
  pub reduce : List (Signal F) → Result Verdict
