-- ===== src/Compiler/Profiles.antt =====
-- apps/control-plane/internal/compiler/compiler.go: the load profile that the engine drives for a
-- managed scenario, and the parameters of a run on top of it. ParseDuration, which rests on Go's own
-- parsers, is the argument `parse`.
pub mod Ceiling
pub mod Overrides
use open_synapse.Prelude.{
  ℕ, String, ◌≡◌, ◌⊎◌, inl, inr, Bool, true, false, not, ◌&&◌, ◌||◌, Option, none, some, List, [],
  ◌∷◌, ◌++◌, map, if◌then◌else◌, ltb, length, Option-cases,
}
use open_synapse.Prelude.Int.{ℤ, pos, negsuc, ◌+ℤ◌, ◌≤ℤ◌, ltb_ℤ, leb_ℤ, scale, wrap64, quot}
use text.Mathlib.Text.{◌==◌ as str_eq}
use open_synapse.Runs.Parameters.{RunStage, RunParameters}

-- stage
pub record ScenarioStage : Type 0 where
  pub duration : String
  pub target : ℤ

-- scenarioProps
pub record ScenarioProps : Type 0 where
  pub executor : String
  pub vus : ℤ
  pub start_vus : Option ℤ
  pub max_vus : ℤ
  pub duration : String
  pub iterations : ℤ
  pub rate : ℤ
  pub time_unit : String
  pub pre_alloc_vus : ℤ
  pub graceful_stop : String
  pub stages : List ScenarioStage

-- ProfileStage
pub record ProfileStage : Type 0 where
  pub duration : ℤ
  pub target : ℤ

-- Profile
pub record Profile : Type 0 where
  pub start_vus : ℤ
  pub stages : List ProfileStage

pub data ProfileError : Type 0 where
  bad_stage bad_duration no_duration : ProfileError

-- isVUBased
unfoldable pub is_vu_based : String → Bool
is_vu_based executor =
    str_eq executor "constant-vus"
    || str_eq executor "ramping-vus"
    || str_eq executor "externally-controlled"

-- the loop of Profile.Duration, an int64
unfoldable pub sum_durations : ℤ → List ProfileStage → ℤ
sum_durations d [] = d
sum_durations d (s ∷ ss) = sum_durations (wrap64 (d +ℤ s.duration)) ss

-- Profile.Duration
abbrev pub duration_of : Profile → ℤ
duration_of p = sum_durations (pos 0) p.stages

-- the loop of Profile.Peak
unfoldable pub peak_from : ℤ → List ProfileStage → ℤ
peak_from peak [] = peak
peak_from peak (s ∷ ss) = peak_from (if ltb_ℤ peak s.target then s.target else peak) ss

-- Profile.Peak
abbrev pub peak_of : Profile → ℤ
peak_of p = peak_from p.start_vus p.stages

-- &Profile{StartVUs: vus, Stages: []ProfileStage{{Duration: d, Target: vus}}}
abbrev pub constant_profile : ℤ → ℤ → Profile
constant_profile vus d = record {
  start_vus = vus;
  stages = record { duration = d; target = vus } ∷ [];
}

-- MaxDurationFor; the division of an int64 by two, and the sum of the result, which wraps
unfoldable pub max_duration_for : ℤ → ℤ
max_duration_for planned =
    let half = quot planned 2 in
    let long = if ltb_ℤ half (pos 300000000000) then pos 300000000000 else half in
    let buffer = if ltb_ℤ (pos 86400000000000) long then pos 86400000000000 else long in
    wrap64 (planned +ℤ buffer)

module _ (parse : String → Option ℤ) where
  -- the loops over the stages, of the run's parameters and of the scenario
  unfoldable pub run_stages : List RunStage → Option (List ProfileStage)
  run_stages [] = some []
  run_stages (s ∷ ss) =
      let rest = run_stages ss in
      elim (parse s.duration) [
        | none ↦ none
        | some d ↦ elim rest [
          | none ↦ none
          | some ps ↦ some (record { duration = d; target = s.target } ∷ ps)
        ]
      ]

  unfoldable pub scenario_stages : List ScenarioStage → Option (List ProfileStage)
  scenario_stages [] = some []
  scenario_stages (s ∷ ss) =
      let rest = scenario_stages ss in
      elim (parse s.duration) [
        | none ↦ none
        | some d ↦ elim rest [
          | none ↦ none
          | some ps ↦ some (record { duration = d; target = s.target } ∷ ps)
        ]
      ]

  -- the switch on the executor
  unfoldable pub own_profile : ScenarioProps → ProfileError ⊎ Profile
  own_profile p =
      if str_eq p.executor "ramping-vus"
      then elim (scenario_stages p.stages) [
        | none ↦ inl bad_stage
        | some stages ↦
            inr (record {
              start_vus = elim p.start_vus [ none ↦ pos 0 | some n ↦ n ];
              stages = stages;
            })
      ]
      else let vus = if leb_ℤ p.vus (pos 0) then pos 1 else p.vus in
        if str_eq p.duration ""
        then inr (constant_profile vus (pos 30000000000))
        else elim (parse p.duration) [
          | none ↦ inl bad_duration
          | some d ↦ inr (constant_profile vus d)
        ]

  -- the run's VU count and duration on top of a profile
  unfoldable pub with_overrides : RunParameters → Profile → Profile
  with_overrides ov prof =
      if ltb_ℤ (pos 0) ov.vus_target || ltb_ℤ (pos 0) ov.duration_seconds
      then constant_profile (if leb_ℤ ov.vus_target (pos 0) then peak_of prof else ov.vus_target) (
          if ltb_ℤ (pos 0) ov.duration_seconds
          then wrap64 (scale ov.duration_seconds 1000000000)
          else duration_of prof)
      else prof

  -- the last test of profileFor
  unfoldable pub checked_profile : Profile → ProfileError ⊎ Profile
  checked_profile prof = if leb_ℤ (duration_of prof) (pos 0) then inl no_duration else inr prof

  unfoldable pub overridden : Option RunParameters → Profile → Profile
  overridden none prof = prof
  overridden (some ov) prof = with_overrides ov prof

  -- the profile of a scenario whose stages the run does not override
  unfoldable pub scenario_profile : ScenarioProps → Option RunParameters → ProfileError ⊎ Profile
  scenario_profile p ov = elim (own_profile p) [
    | inl e ↦ inl e
    | inr prof ↦ checked_profile (overridden ov prof)
  ]

  -- profileFor
  unfoldable pub profile_for : ScenarioProps → Option RunParameters → ProfileError ⊎ Profile
  profile_for p none = scenario_profile p none
  profile_for p (some ov) =
      if ltb 0 (length ov.stages)
      then elim (run_stages ov.stages) [
        | none ↦ inl bad_stage
        | some stages ↦ inr (record { start_vus = pos 0; stages = stages })
      ]
      else scenario_profile p (some ov)

-- the VU ceiling of the managed scenario, in emitScenario
unfoldable pub managed_vus : ScenarioProps → Profile → ℤ
managed_vus p prof =
    let peak = peak_of prof in
    let most = if ltb_ℤ peak p.max_vus then p.max_vus else peak in
    if ltb_ℤ most (pos 1) then pos 1 else most

-- the fields of Result that emitScenario sets
pub record Managed : Type 0 where
  pub profile : Profile
  pub max_vus : ℤ
  pub planned_duration : ℤ
  pub max_duration : ℤ

-- the managed branch of emitScenario
unfoldable pub emit_managed :
    (String → Option ℤ) → ScenarioProps → Option RunParameters → ProfileError ⊎ Managed
emit_managed parse p ov = elim (profile_for parse p ov) [
  | inl e ↦ inl e
  | inr prof ↦ inr (record {
    profile = prof;
    max_vus = managed_vus p prof;
    planned_duration = duration_of prof;
    max_duration = max_duration_for (duration_of prof);
  })
]

-- applyNativeOverrides; `seconds_text` is fmt.Sprintf("%ds", n)
abbrev with_vus : RunParameters → ScenarioProps → ScenarioProps
with_vus ov p =
    if ltb_ℤ (pos 0) ov.vus_target
    then record p {
      pre_alloc_vus = ov.vus_target;
      max_vus = if ltb_ℤ p.max_vus ov.vus_target then ov.vus_target else p.max_vus;
    }
    else p

unfoldable pub apply_native_overrides : (ℤ → String) → RunParameters → ScenarioProps → ScenarioProps
apply_native_overrides seconds_text ov p =
    if str_eq p.executor "constant-arrival-rate"
    then (let rated =
          if ltb_ℤ (pos 0) ov.rps_target
          then record p { rate = ov.rps_target; time_unit = "1s" }
          else p in
        let timed =
          if ltb_ℤ (pos 0) ov.duration_seconds
          then record rated { duration = seconds_text ov.duration_seconds }
          else rated in
        with_vus ov timed)
    else if str_eq p.executor "ramping-arrival-rate"
    then with_vus ov (
        if ltb 0 (length ov.stages)
        then record p {
          stages = map (λ s. record { duration = s.duration; target = s.target }) ov.stages;
        }
        else p)
    else if str_eq p.executor "shared-iterations" || str_eq p.executor "per-vu-iterations"
    then (if ltb_ℤ (pos 0) ov.vus_target then record p { vus = ov.vus_target } else p)
    else p
