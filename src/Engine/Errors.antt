-- ===== src/Engine/Errors.antt =====
-- apps/control-plane/internal/engine/aggregator.go: the log of failed requests, db.RunError.
use open_synapse.Prelude.{
  ℕ, ◌+◌, ◌-◌, String, List, [], ◌∷◌, ◌++◌, ltb, if◌then◌else◌, length, drop,
}
use open_synapse.Prelude.Int.{ℤ}
use open_synapse.Prelude.Assoc.{string_eq, int_eq}

abbrev pub max_error_samples : ℕ
max_error_samples = 50

-- db.RunError
pub record RunError : Type 0 where
  pub timestamp_ms : ℤ
  pub status : ℤ
  pub method : String
  pub name : String
  pub url : String
  pub error_code : String
  pub message : String

-- The errors kept for the log, and those not yet taken.
pub record ErrorLog : Type 0 where
  pub errors : List RunError
  pub errors_total : ℕ
  pub new_errors : List RunError

-- the writes of recordError
unfoldable pub record_error : RunError → ErrorLog → ErrorLog
record_error e log =
    let all = log.errors ++ e ∷ [] in
    record {
      errors =
          if ltb max_error_samples (length all)
          then drop (length all - max_error_samples) all
          else all;
      errors_total = log.errors_total + 1;
      new_errors =
          if ltb (length log.new_errors) max_error_samples
          then log.new_errors ++ e ∷ []
          else log.new_errors;
    }
