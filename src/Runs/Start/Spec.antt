-- ===== src/Runs/Start/Spec.antt =====
-- What the compiler and Start give the engine.
use mathlib.Core.Path.{subst}
use open_synapse.Prelude.{
  String, ◌≡◌, ◌⊎◌, inl, inr, refl, Bool, Option, some, List, [], ◌∷◌, if◌then◌else◌, map,
  Sum-cases, arith, All,
}
use open_synapse.Prelude.Int.{ℤ, pos, negsuc, ◌≤ℤ◌, ◌+ℤ◌, ltb_ℤ, wrap64, quot, InInt64, wrap64_id}
use open_synapse.Float64.{Float64, IsCount}
use open_synapse.Engine.Schedule.{
  Schedule, Stage, target_at, peak_vus, peak_from as engine_peak_from,
}
use open_synapse.Engine.Schedule.Bounds.{target_at-le-peak_vus}
use open_synapse.Engine.Process.Invariant.{IsValidSpec}
use open_synapse.Compiler.Profiles.{
  Profile, ProfileStage, ScenarioProps, Managed, peak_of, peak_from, duration_of, emit_managed,
  max_duration_for, profile_for, sum_durations,
}
use open_synapse.Compiler.Profiles.Ceiling.{emit_managed-ceiling, peak_from-le}
use open_synapse.Runs.Parameters.{RunParameters}
use open_synapse.Runs.Start.{Services, Compiled, spec_of, schedule_of}

-- what the compiler returns for a plan with a managed scenario
abbrev pub compiled_of : Bool → Managed → Compiled
compiled_of control m = record {
  profile = some m.profile;
  max_vus = m.max_vus;
  planned_duration = m.planned_duration;
  max_duration = m.max_duration;
  control = control;
}

-- No VU count of the profile is below a number, and each has a magnitude of at most 2 ^ 52.
abbrev pub IsCountProfile : ℤ → Profile → Type 0
IsCountProfile lo prof =
    ((lo ≤ℤ prof.start_vus) × IsCount prof.start_vus)
    × All (λ s. (lo ≤ℤ s.target) × IsCount s.target) prof.stages

engine_stages : List ProfileStage → List Stage
engine_stages ss = map (λ s. record { duration = s.duration; target = s.target }) ss

-- Engine and compiler agree on the peak of a profile.
peak_from-map :
    (peak : ℤ) (ss : List ProfileStage)
    → engine_peak_from peak (engine_stages ss) ≡ peak_from peak ss
unfolding engine_peak_from peak_from engine_stages
peak_from-map peak [] = refl
peak_from-map peak (s ∷ ss) = peak_from-map (if ltb_ℤ peak s.target then s.target else peak) ss

All-engine_stages :
    (lo : ℤ) (ss : List ProfileStage)
    → All (λ s. (lo ≤ℤ s.target) × IsCount s.target) ss
    → All (λ s. (lo ≤ℤ s.target) × IsCount s.target) (engine_stages ss)
unfolding engine_stages
All-engine_stages lo [] h = tt
All-engine_stages lo (s ∷ ss) h = (h.0, All-engine_stages lo ss h.1)

pub peak_vus-schedule_of : (prof : Profile) → peak_vus (schedule_of prof) ≡ peak_of prof
unfolding peak_vus schedule_of engine_stages
peak_vus-schedule_of prof = peak_from-map prof.start_vus prof.stages

abbrev buffer_of : ℤ → ℤ
buffer_of half =
    let long = if ltb_ℤ half (pos 300000000000) then pos 300000000000 else half in
    if ltb_ℤ (pos 86400000000000) long then pos 86400000000000 else long

buffer_of_bounds :
    (half : ℤ) → (pos 300000000000 ≤ℤ buffer_of half) × (buffer_of half ≤ℤ pos 86400000000000)
buffer_of_bounds half = ground arith

wrap64_later :
    (a b : ℤ)
    → InInt64 a
    → pos 0 ≤ℤ b
    → b ≤ℤ pos 86400000000000
    → (wrap64 (a +ℤ b) ≤ℤ pos 0) ⊎ (a ≤ℤ wrap64 (a +ℤ b))
unfolding wrap64 ◌+ℤ◌
wrap64_later (pos n) (pos m) h k l = ground (arith, h, l)
wrap64_later (pos n) (negsuc m) h k l = absurd (ground (arith, k))
wrap64_later (negsuc n) (pos m) h k l = inr (ground (arith, h, l, k, wrap64_id (negsuc n +ℤ pos m)))
wrap64_later (negsuc n) (negsuc m) h k l = absurd (ground (arith, k))

-- The hard bound is not below the plan, unless it overflows to no bound at all.
max_duration_for_bound :
    (planned : ℤ)
    → InInt64 planned
    → (max_duration_for planned ≤ℤ pos 0) ⊎ (planned ≤ℤ max_duration_for planned)
unfolding max_duration_for
max_duration_for_bound planned h =
    let half = quot planned 2 in
    let (low, high) = buffer_of_bounds half in
    wrap64_later planned (buffer_of half) h (ground (arith, low)) high

wrap64-InInt64 : (z : ℤ) → InInt64 (wrap64 z)
unfolding wrap64
wrap64-InInt64 z = ground arith

InInt64-sum_durations : (d : ℤ) (ss : List ProfileStage) → InInt64 d → InInt64 (sum_durations d ss)
unfolding sum_durations
InInt64-sum_durations d [] h = h
InInt64-sum_durations d (s ∷ ss) h =
    InInt64-sum_durations (wrap64 (d +ℤ s.duration)) ss (wrap64-InInt64 (d +ℤ s.duration))

IsValidSpec-bound :
    (parse : String → Option ℤ) (p : ScenarioProps) (ov : Option RunParameters) (m : Managed)
    → emit_managed parse p ov ≡ inr m
    → (m.max_duration ≤ℤ pos 0) ⊎ (m.planned_duration ≤ℤ m.max_duration)
unfolding emit_managed
IsValidSpec-bound parse p ov m h = elim (Sum-cases (profile_for parse p ov)) [
  | inl (e, refused) ↦ ground (arith, h, refused)
  | inr (prof, made) ↦ ground (
    arith,
    h,
    made,
    max_duration_for_bound (duration_of prof)
        (InInt64-sum_durations (pos 0) prof.stages (ground arith)),
  )
]

at_start :
    (fl : Float64) (prof : Profile) (lo most : ℤ)
    → IsCountProfile lo prof
    → peak_of prof ≤ℤ most
    → target_at fl (schedule_of prof) (pos 0) ≤ℤ most
unfolding schedule_of engine_stages
at_start fl prof lo most exact h =
    let bounds =
      target_at-le-peak_vus fl (schedule_of prof) (pos 0) lo (ground arith) exact.0
        (All-engine_stages lo prof.stages exact.1) in
    ground (arith, bounds.1, peak_vus-schedule_of prof, h)

-- Whatever a managed scenario and the run's parameters are: the spec that Start makes of what the
-- compiler returns is one that the engine's invariant allows, for a request rate that is not negative
-- and VU counts of the profile of a magnitude of at most 2 ^ 52.
pub spec_of-IsValidSpec :
    (fl : Float64) (sv : Services) (id : String) (p : ScenarioProps) (ov : Option RunParameters)
    (recorded : RunParameters) (m : Managed) (control : Bool) (lo : ℤ)
    → emit_managed sv.parse p ov ≡ inr m
    → pos 0 ≤ℤ recorded.rps_target
    → IsCountProfile lo m.profile
    → IsValidSpec fl (spec_of sv id recorded (compiled_of control m))
unfolding spec_of
spec_of-IsValidSpec fl sv id p ov recorded m control lo made rps exact =
    let (start, under, one, own) = emit_managed-ceiling sv.parse p ov m made in
    let sched : Schedule = schedule_of m.profile in
    record {
      room = λ given on.
          subst (λ s. target_at fl s (pos 0) ≤ℤ m.max_vus) (ground (arith, on))
            (at_start fl m.profile lo m.max_vus exact
              (peak_from-le m.profile.start_vus m.max_vus m.profile.stages start under));
      room_none = ground (arith, one);
      rps = rps;
      bound = IsValidSpec-bound sv.parse p ov m made;
    }
