-- ===== src/Examples/Runs.antt =====
-- The theorems on the runs API, at concrete inputs.
use text.Mathlib.Text.{◌==◌ as str_eq}
use open_synapse.Engine.Registry.{Engine}
use open_synapse.Prelude.{
  String, ◌≡◌, ◌↔◌, refl, true, false, Option, none, some, [], ◌∷◌, ◌++◌, arith, map, inl,
  if◌then◌else◌, ◌^◌, All,
}
use open_synapse.Prelude.Int.{ℤ, pos, ◌≤ℤ◌, scale, ◌+ℤ◌, InInt64, wrap64}
use open_synapse.Prelude.Assoc.{lookup, string_eq}
use open_synapse.Examples.Engine.Values.{busy_engine, seconds}
use open_synapse.Runs.Control.{ControlRequest, RunHandlers}
use open_synapse.Runs.Store.{Run, RunStore, update_status, mark_interrupted}
use open_synapse.Runs.Store.Restart.{mark_interrupted_lem, interrupted, was_unfinished, unfinished}
use open_synapse.Runs.Store.Order.{update_status_order}
use open_synapse.Runs.Parameters.{
  RunStage, RunParameters, validate_parameters, max_run_duration, max_run_vus, max_workers,
  check_stages,
}
use open_synapse.Runs.Parameters.Validation.{
  validate_parameters_lem, validate_parameters_wraps, IsStage, total_of,
}

-- pauses the run and sets 5 VUs
abbrev pause_at_five : ControlRequest
pause_at_five = record {
  vus = some (pos 5);
  rps = none;
  duration_seconds = none;
  paused = some true;
  resume_schedule = false;
}

abbrev handlers : RunHandlers
handlers = record { engine = some busy_engine; events = [] }

-- a stand-in for the parser of durations, which knows two of them
abbrev parse_some : String → Option ℤ
parse_some s =
    if str_eq s "1m"
    then some (seconds 60)
    else if str_eq s "200y"
    then some (pos (2 ^ 62))
    else none

abbrev one_minute : RunStage
one_minute = record { duration = "1m"; target = pos 10 }

abbrev forever : RunStage
forever = record { duration = "200y"; target = pos 10 }

abbrev modest : RunParameters
modest = record {
  vus_target = pos 10;
  rps_target = pos 0;
  duration_seconds = pos 60;
  stages = one_minute ∷ [];
  worker_count = pos 1;
}

minute_fits : InInt64 (scale (pos 60) 1000000000)
unfolding scale
minute_fits = (omega arith, omega arith)

minute_in_range : InInt64 (pos 0 +ℤ seconds 60)
unfolding ◌+ℤ◌
minute_in_range = (omega arith, omega arith)

validate_parameters_lem_example :
    validate_parameters parse_some modest ≡ none
    ↔ (pos 0 ≤ℤ pos 10)
      × (pos 10 ≤ℤ max_run_vus)
      × (pos 0 ≤ℤ pos 0)
      × (pos 1 ≤ℤ pos 1)
      × (pos 1 ≤ℤ max_workers)
      × (pos 0 ≤ℤ pos 60)
      × (scale (pos 60) 1000000000 ≤ℤ max_run_duration)
      × All (IsStage parse_some) (one_minute ∷ [])
      × (total_of parse_some (pos 0) (one_minute ∷ []) ≤ℤ max_run_duration)
validate_parameters_lem_example =
    validate_parameters_lem parse_some modest minute_fits (minute_in_range, tt)

forever-IsStage : IsStage parse_some forever
forever-IsStage = (ground arith, omega arith, omega arith)

modest_accepted : validate_parameters parse_some (record modest { stages = [] }) ≡ none
unfolding validate_parameters wrap64 scale check_stages
modest_accepted = refl

-- two stages of 146 years each
validate_parameters_wraps_example :
    validate_parameters parse_some (record modest { stages = forever ∷ forever ∷ [] }) ≡ none
validate_parameters_wraps_example =
    validate_parameters_wraps parse_some modest (2 ^ 62) (2 ^ 62) forever forever
      (forever-IsStage, refl) (forever-IsStage, refl) (omega arith) (omega arith) (omega arith)
      modest_accepted

abbrev waiting : Run
waiting = record { status = "queued"; started_at = none; ended_at = none }

abbrev done_before : Run
done_before = record { status = "completed"; started_at = some (pos 1); ended_at = some (pos 2) }

abbrev two_runs : RunStore
two_runs = record { runs = ("r1", waiting) ∷ ("r2", done_before) ∷ []; events = [] }

mark_interrupted_lem_example :
    (lookup "r1" (mark_interrupted (pos 9) two_runs).1.runs
      ≡ some (if was_unfinished waiting then interrupted (pos 9) waiting else waiting))
    × ((mark_interrupted (pos 9) two_runs).1.events
        ≡ [] ++ map (λ k. (k, "error")) (unfinished two_runs.runs))
unfolding lookup
mark_interrupted_lem_example =
    mark_interrupted_lem (pos 9) "r1" two_runs waiting (refl, (refl, tt)) refl

update_status_order_example :
    (lookup "r1"
        (update_status
          (pos 8)
          "r1"
          "completed"
          (update_status (pos 7) "r1" "running" two_runs)).runs
      ≡ some (record { status = "completed"; started_at = some (pos 7); ended_at = some (pos 8) }))
    × (lookup "r1"
          (update_status
            (pos 7)
            "r1"
            "running"
            (update_status (pos 8) "r1" "completed" two_runs)).runs
        ≡ some (record { status = "running"; started_at = some (pos 7); ended_at = some (pos 8) }))
unfolding lookup
update_status_order_example =
    update_status_order "r1" "completed" (pos 7) (pos 8) two_runs waiting refl (inl refl)
