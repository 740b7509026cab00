-- ===== src/Convergence/Run.antt =====
-- Run of internal/convergence/convergence.go: the record of one reduction. The digest of the inputs
-- (digest.go: SHA-256 over canonical JSON) is a parameter, which fails where encoding fails.
pub mod Laws
use meristem.Base.{ℕ, String, Bool, true, false, not, Option, none, some, List, ltb, if◌then◌else◌}
use meristem.Domain.{Disposition, disposition_valid}
use meristem.Convergence.{
  Signal, Verdict, Config, Error, Result, Reducer, nil_reducer, bad_attempt, digest_failed,
  reduce_failed, invalid_disposition, ok, err,
}

pub record Reduction (F : Type 0) : Type 0 where
  pub reducer_identity : String
  pub reducer_version : ℕ
  pub attempt : ℕ
  pub inputs_digest : String
  pub verdict : Verdict
  pub reducer_config : Config F
  pub signals : List (Signal F)

module _ {F : Type 0} (digest : List (Signal F) → Config F → Option String) where
  check_verdict : Reducer F → List (Signal F) → ℕ → String → Result Verdict → Result (Reduction F)
  check_verdict r signals attempt digested (err e) = err (reduce_failed r.identity r.version e)
  check_verdict r signals attempt digested (ok v) =
      if not (disposition_valid v.disposition)
      then err (invalid_disposition r.identity v.disposition)
      else ok (record {
        reducer_identity = r.identity;
        reducer_version = r.version;
        attempt = attempt;
        inputs_digest = digested;
        verdict = v;
        reducer_config = r.reducer_config;
        signals = signals;
      })

  run_digested : Reducer F → List (Signal F) → ℕ → Option String → Result (Reduction F)
  unfolding check_verdict
  run_digested r signals attempt none = err digest_failed
  run_digested r signals attempt (some digested) =
      check_verdict r signals attempt digested (r.reduce signals)

  -- A nil interface is `none`.
  unfoldable pub run : Option (Reducer F) → List (Signal F) → ℕ → Result (Reduction F)
  unfolding run_digested
  run none signals attempt = err nil_reducer
  run (some r) signals attempt =
      if ltb attempt 1
      then err (bad_attempt attempt)
      else run_digested r signals attempt (digest signals r.reducer_config)
