-- ===== src/Runs/Parameters/Validation.antt =====
-- Which run parameters are accepted.
use open_synapse.Prelude.{
  ℕ, ◌+◌, ◌^◌, ◌≤◌, ◌<◌, String, ◌≡◌, ◌≢◌, ◌↔◌, inl, inr, Option, none, some, List, [], ◌∷◌, arith,
  Option-cases, All,
}
use open_synapse.Prelude.Int.{ℤ, pos, ◌+ℤ◌, ◌≤ℤ◌, wrap64, scale, InInt64, wrap64_id}
use open_synapse.Prelude.Assoc.{string_eq}
use open_synapse.Runs.Parameters.{
  RunStage, RunParameters, max_workers, max_run_vus, max_run_duration, check_stages,
  validate_parameters,
}

module _ (parse : String → Option ℤ) where
  -- the time of a stage, and of all stages, without a bound on the sum
  abbrev pub stage_time : RunStage → ℤ
  stage_time s = elim (parse s.duration) [ none ↦ pos 0 | some d ↦ d ]

  abbrev pub total_of : ℤ → List RunStage → ℤ
  total_of total [] = total
  total_of total (s ∷ ss) = total_of (total +ℤ stage_time s) ss

  -- A stage has a duration, and a target within the bounds.
  abbrev pub IsStage : RunStage → Type 0
  IsStage s = (parse s.duration ≢ none) × (pos 0 ≤ℤ s.target) × (s.target ≤ℤ max_run_vus)

  -- No sum of the stages on the way leaves the int64.
  abbrev pub InRange : ℤ → List RunStage → Type 0
  InRange total [] = Unit
  InRange total (s ∷ ss) = InInt64 (total +ℤ stage_time s) × InRange (total +ℤ stage_time s) ss

module _ (parse : String → Option ℤ) where
  check_stages_lem :
      (total : ℤ) (ss : List RunStage)
      → InRange parse total ss
      → check_stages parse total ss ≡ none
        ↔ All (IsStage parse) ss × (total_of parse total ss ≤ℤ max_run_duration)
  unfolding check_stages
  check_stages_lem total [] r = ground arith
  check_stages_lem total (s ∷ ss) r = elim (Option-cases (parse s.duration)) [
    | inl bad ↦ ground arith
    | inr (d, good) ↦
        let rest = check_stages_lem (total +ℤ d) ss in ground (arith, wrap64_id (total +ℤ d), rest)
  ]

  -- As long as no duration leaves the int64: parameters are accepted exactly if every one of them is
  -- within its documented bounds, every stage has a duration and a target within the bounds, and the stages
  -- add up to seven days at most.
  pub validate_parameters_lem :
      (p : RunParameters)
      → InInt64 (scale p.duration_seconds 1000000000)
      → InRange parse (pos 0) p.stages
      → validate_parameters parse p ≡ none
        ↔ (pos 0 ≤ℤ p.vus_target)
          × (p.vus_target ≤ℤ max_run_vus)
          × (pos 0 ≤ℤ p.rps_target)
          × (pos 1 ≤ℤ p.worker_count)
          × (p.worker_count ≤ℤ max_workers)
          × (pos 0 ≤ℤ p.duration_seconds)
          × (scale p.duration_seconds 1000000000 ≤ℤ max_run_duration)
          × All (IsStage parse) p.stages
          × (total_of parse (pos 0) p.stages ≤ℤ max_run_duration)
  unfolding validate_parameters
  validate_parameters_lem p fits range = ground (
    arith,
    wrap64_id (scale p.duration_seconds 1000000000),
    check_stages_lem (pos 0) p.stages range,
  )

wrap64_negative : (n : ℕ) → 2 ^ 63 ≤ n → n < 2 ^ 64 → wrap64 (pos n) ≤ℤ pos 0
unfolding wrap64
wrap64_negative n low high = ground arith

stages_wrap :
    (parse : String → Option ℤ) (a b : ℕ) (s t : RunStage)
    → IsStage parse s × (parse s.duration ≡ some (pos a))
    → IsStage parse t × (parse t.duration ≡ some (pos b))
    → a < 2 ^ 63
    → 2 ^ 63 ≤ a + b
    → a + b < 2 ^ 64
    → check_stages parse (pos 0) (s ∷ t ∷ []) ≡ none
unfolding check_stages ◌+ℤ◌
stages_wrap parse a b s t good_s good_t fits low high =
    ground (arith, wrap64_id (pos a), wrap64_negative (a + b) low high)

-- The sum of the stages can overflow: two stages that add up to 2 ^ 63 nanoseconds or more, which is 292
-- years, but to less than twice that, are accepted wherever the same parameters without stages are.
pub validate_parameters_wraps :
    (parse : String → Option ℤ) (p : RunParameters) (a b : ℕ) (s t : RunStage)
    → IsStage parse s × (parse s.duration ≡ some (pos a))
    → IsStage parse t × (parse t.duration ≡ some (pos b))
    → a < 2 ^ 63
    → 2 ^ 63 ≤ a + b
    → a + b < 2 ^ 64
    → validate_parameters parse (record p { stages = [] }) ≡ none
    → validate_parameters parse (record p { stages = s ∷ t ∷ [] }) ≡ none
unfolding validate_parameters
validate_parameters_wraps parse p a b s t good_s good_t fits low high others =
    ground (arith, stages_wrap parse a b s t good_s good_t fits low high)
