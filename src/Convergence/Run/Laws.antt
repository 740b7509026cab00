-- ===== src/Convergence/Run/Laws.antt =====
-- What a recorded reduction says.
use meristem.Base.{ℕ, ◌≤◌, String, true, Option, some, List, ◌≡◌, arith}
use meristem.Domain.{disposition_valid}
use meristem.Convergence.{Signal, Config, Reducer, ok}
use meristem.Convergence.Run.{Reduction, run}

module _ {F : Type 0} (digest : List (Signal F) → Config F → Option String) where
  -- A reduction that Run returns can be replayed from what it records: it names the reducer, the
  -- attempt (from 1), exactly the signals, their digest with the configuration, and the verdict
  -- that the reducer gives on them, whose disposition is one of the three.
  pub run-replays :
      (r : Reducer F) (signals : List (Signal F)) (attempt : ℕ) (red : Reduction F)
      → run digest (some r) signals attempt ≡ ok red
      → (red.reducer_identity ≡ r.identity)
        × (red.reducer_version ≡ r.version)
        × (red.attempt ≡ attempt)
        × (1 ≤ attempt)
        × (red.signals ≡ signals)
        × (digest red.signals red.reducer_config ≡ some red.inputs_digest)
        × (r.reduce red.signals ≡ ok red.verdict)
        × (disposition_valid red.verdict.disposition ≡ true)
  unfolding run
  run-replays r signals attempt red h = ground arith
