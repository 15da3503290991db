-- ===== src/Engine/Outcome.antt =====
-- apps/control-plane/internal/engine/engine.go: how the exit codes of a run's instances become the
-- run's outcome (`combineExitCodes`, `complete`, `failureMessage`).
-- the statuses of Result
pub mod Codes
use open_synapse.Prelude.{
  ℕ, zero, suc, ◌+◌, ◌-◌, ◌*◌, ◌/◌, ◌%◌, ◌^◌, ◌≤◌, ◌<◌, String, eq_iff, ◌≡◌, refl, sym, ap, ◌∙◌,
  ◌≢◌, ◌↔◌, ◌⊎◌, inl, inr, Bool, true, false, not, ◌&&◌, ◌||◌, Option, none, some, List, [], ◌∷◌,
  ◌++◌, map, arith, ltb, leb, ◌==◌, if◌then◌else◌, Bool-cases, Option-cases, length, take, drop,
  length-append, length-drop, All, Any,
}
use open_synapse.Prelude.Int.{
  ℤ, pos, negsuc, pos_part, neg_part, ◌+ℤ◌, ◌-ℤ◌, ◌≤ℤ◌, ◌<ℤ◌, ltb_ℤ, leb_ℤ, eqb_ℤ, max_ℤ, quot,
  wrap64, scale, InInt64, int_laws, +ℤ_parts, -ℤ_parts, one_part, eq_of_parts, wrap64_id,
}

pub data Status : Type 0 where
  completed failed aborted : Status

-- why a run ended as it did: the fixed messages of `complete`, or the reason and the log lines that
-- `failureMessage` joins
pub data Message : Type 0 where
  nothing was_killed thresholds_failed : Message
  failure : String → ℤ → List String → Message

-- Result, with the summary's threshold flag
pub record Result : Type 0 where
  pub status : Status
  pub exit_code : ℤ
  pub thresholds_passed : Bool
  pub message : Message

-- `rank` in combineExitCodes
unfoldable pub rank : ℤ → ℕ
rank c =
    if eqb_ℤ c (pos 0)
    then 0
    else if eqb_ℤ c (pos 103)
    then 1
    else if eqb_ℤ c (pos 99)
    then 2
    else 3

-- the loop of combineExitCodes
unfoldable pub worst_from : ℤ → List ℤ → ℤ
worst_from worst [] = worst
worst_from worst (c ∷ cs) = worst_from (if ltb (rank worst) (rank c) then c else worst) cs

-- combineExitCodes
unfoldable pub combine_exit_codes : List ℤ → ℤ
combine_exit_codes codes = worst_from (pos 0) codes

-- the last lines, at most three
abbrev last_three : List String → List String
last_three ls = if ltb 3 (length ls) then drop (length ls - 3) ls else ls

-- the table of reasons in failureMessage
unfoldable pub reason_for : ℤ → String
reason_for c =
    if eqb_ℤ c (pos 100)
    then "setup() timed out"
    else if eqb_ℤ c (pos 101)
    then "teardown() timed out"
    else if eqb_ℤ c (pos 103)
    then "k6 engine error"
    else if eqb_ℤ c (pos 104)
    then "invalid test configuration"
    else if eqb_ℤ c (pos 106)
    then "k6 could not start its REST API"
    else if eqb_ℤ c (pos 107)
    then "the script threw an exception"
    else if eqb_ℤ c (pos 108)
    then "the script called test.abort()"
    else if eqb_ℤ c (pos 109)
    then "k6 crashed"
    else "k6 failed"

-- the messages that the regular expression finds in the log lines, one a line at most
unfoldable pub matches : (String → Option String) → List String → List String
matches find [] = []
matches find (l ∷ ls) =
    let rest = matches find ls in elim (find l) [ none ↦ rest | some m ↦ m ∷ rest ]

abbrev prefer : List String → List String → List String
prefer [] logs = last_three logs
prefer (m ∷ ms) logs = last_three (m ∷ ms)

-- failureMessage, before its parts are joined; `find` is the regular expression
unfoldable pub failure_message : (String → Option String) → ℤ → List String → Message
failure_message find code logs = failure (reason_for code) code (prefer (matches find logs) logs)

-- the switch of `complete`
unfoldable pub outcome : (String → Option String) → Bool → Bool → List String → ℤ → Result
outcome find killed stop_requested tail code =
    let stopped =
      stop_requested
      && (eqb_ℤ code (pos 103)
          || eqb_ℤ code (pos 105)
          || eqb_ℤ code (pos 108)
          || ltb_ℤ code (pos 0)) in
    if killed
    then record {
      status = aborted;
      exit_code = code;
      thresholds_passed = true;
      message = was_killed;
    }
    else if eqb_ℤ code (pos 0)
    then record {
      status = completed;
      exit_code = code;
      thresholds_passed = true;
      message = nothing;
    }
    else if eqb_ℤ code (pos 99)
    then record {
      status = completed;
      exit_code = code;
      thresholds_passed = false;
      message = thresholds_failed;
    }
    else if stopped
    then record {
      status = completed;
      exit_code = code;
      thresholds_passed = true;
      message = nothing;
    }
    else record {
      status = failed;
      exit_code = code;
      thresholds_passed = true;
      message = failure_message find code tail;
    }
