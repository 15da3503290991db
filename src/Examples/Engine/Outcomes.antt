-- ===== src/Examples/Engine/Outcomes.antt =====
-- The theorems on schedules, on the outcome of a run and on the engine, at concrete inputs.
use open_synapse.Engine.Outcome.Codes.{AreClean, outcome-completed, IsStopCode}
use open_synapse.Engine.Schedule.Bounds.{target_at-le-peak_vus}
use open_synapse.Engine.Registry.{with_run, control_state, with_run-other}
use open_synapse.Engine.Outcome.{rank, outcome, combine_exit_codes, completed}
use open_synapse.Engine.Process.Control.{kill_run, new_process, control_state_for}
use open_synapse.Engine.Schedule.{target_at, peak_vus, duration_of, sum_durations}
use open_synapse.Prelude.{
  String, ◌≡◌, refl, false, Option, none, some, List, [], ◌∷◌, ◌↔◌, inl, arith, eq_iff,
}
use open_synapse.Prelude.Int.{ℤ, pos, ◌+ℤ◌, ◌≤ℤ◌}
use open_synapse.Prelude.Assoc.{lookup, string_eq}
use open_synapse.Examples.Numbers.{whole_numbers}
use open_synapse.Examples.Engine.Values.{seconds, ramp_up_down, two_workers, busy_engine}

target_at-le-peak_vus_example :
    (pos 0 ≤ℤ target_at whole_numbers ramp_up_down (seconds 15))
    × (target_at whole_numbers ramp_up_down (seconds 15) ≤ℤ peak_vus ramp_up_down)
target_at-le-peak_vus_example =
    target_at-le-peak_vus whole_numbers ramp_up_down (seconds 15) (pos 0) (omega arith)
      (omega arith, (omega arith, omega arith))
      (
        (omega arith, (omega arith, omega arith)),
        (
          (omega arith, (omega arith, omega arith)),
          ((omega arith, (omega arith, omega arith)), tt),
        ),
      )

ramp_ends : duration_of ramp_up_down ≤ℤ seconds 40
unfolding duration_of sum_durations ◌+ℤ◌
ramp_ends = omega arith

abbrev codes : List ℤ
codes = pos 0 ∷ pos 99 ∷ []

abbrev no_match : String → Option String
no_match line = none

outcome-completed_example :
    (outcome no_match false false [] (combine_exit_codes codes)).status ≡ completed ↔ AreClean codes
outcome-completed_example = outcome-completed no_match [] codes

stop_code : IsStopCode (pos 105)
stop_code = inl refl

real_failure : rank (pos 107) ≡ 3
unfolding rank
real_failure = refl

not-IsStopCode : ¬ IsStopCode (pos 107)
not-IsStopCode = λ h. ground (arith, h)

with_run-other_example :
    lookup "r1" (with_run "r2" (λ rp. (kill_run two_workers rp)) busy_engine).1.active
    ≡ lookup "r1" busy_engine.active
with_run-other_example =
    with_run-other "r2" "r1" (λ rp. kill_run two_workers rp) busy_engine ground
      (arith, eq_iff "r2" "r1")

given :
    control_state "r1" "t0k3n" busy_engine
    ≡ some (record { rps_target = pos 0; should_stop = false; paused = false })
unfolding control_state lookup control_state_for new_process
given = refl
