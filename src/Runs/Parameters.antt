-- ===== src/Runs/Parameters.antt =====
-- apps/control-plane/internal/handlers/runs.go: validateParameters. Durations are int64 nanoseconds, so
-- products and sums of them wrap. compiler.ParseDuration is the parameter `parse`.
pub mod Validation
use open_synapse.Prelude.{
  ℕ, ◌+◌, ◌*◌, ◌^◌, ◌≤◌, ◌<◌, String, eq_iff, ◌≡◌, refl, ◌≢◌, ◌↔◌, ◌⊎◌, inl, inr, Bool, true, false,
  not, ◌&&◌, ◌||◌, Option, none, some, List, [], ◌∷◌, ◌++◌, map, arith, ltb, leb, if◌then◌else◌,
  Bool-cases, Option-cases, All, Any, length,
}
use open_synapse.Prelude.Int.{
  ℤ, pos, negsuc, pos_part, neg_part, ◌+ℤ◌, ◌≤ℤ◌, ◌<ℤ◌, ltb_ℤ, leb_ℤ, wrap64, scale, InInt64,
  wrap64_id, int_laws, +ℤ_parts,
}
use open_synapse.Prelude.Assoc.{Eq, string_eq, Map, lookup, insert, lookup-insert}
use text.Mathlib.Text.{◌==◌ as str_eq}
use open_synapse.Runs.Control.{
  ControlRequest, Change, RunEvent, Reply, engine_not_available, invalid_json, run_not_active, live,
  control_unsupported, control_rejected, RunHandlers, requested, event_of, action_of, apply_changes,
  control, reply_to,
}

-- RunStage and RunParameters of apps/control-plane/internal/db/runs.go
pub record RunStage : Type 0 where
  pub duration : String
  pub target : ℤ

pub record RunParameters : Type 0 where
  pub vus_target : ℤ
  pub rps_target : ℤ
  pub duration_seconds : ℤ
  pub stages : List RunStage
  pub worker_count : ℤ

pub data ParameterError : Type 0 where
  bad_vus bad_rps bad_workers bad_duration too_long : ParameterError
  bad_stage_duration bad_stage_target : ParameterError

abbrev pub max_workers : ℤ
max_workers = pos 64

abbrev pub max_run_vus : ℤ
max_run_vus = pos 100000

-- seven days
abbrev pub max_run_duration : ℤ
max_run_duration = pos 604800000000000

module _ (parse : String → Option ℤ) where
  -- the loop over the stages, with the total so far
  unfoldable pub check_stages : ℤ → List RunStage → Option ParameterError
  check_stages total [] = if ltb_ℤ max_run_duration total then some too_long else none
  check_stages total (s ∷ ss) = elim (parse s.duration) [
    | none ↦ some bad_stage_duration
    | some d ↦
        let rest = check_stages (wrap64 (total +ℤ d)) ss in
        if ltb_ℤ s.target (pos 0) || ltb_ℤ max_run_vus s.target then some bad_stage_target else rest
  ]

  -- validateParameters
  unfoldable pub validate_parameters : RunParameters → Option ParameterError
  validate_parameters p =
      if ltb_ℤ p.vus_target (pos 0) || ltb_ℤ max_run_vus p.vus_target
      then some bad_vus
      else if ltb_ℤ p.rps_target (pos 0)
      then some bad_rps
      else if ltb_ℤ p.worker_count (pos 1) || ltb_ℤ max_workers p.worker_count
      then some bad_workers
      else if ltb_ℤ p.duration_seconds (pos 0)
          || ltb_ℤ max_run_duration (wrap64 (scale p.duration_seconds 1000000000))
      then some bad_duration
      else check_stages (pos 0) p.stages
