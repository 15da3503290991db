-- ===== src/Examples/Engine/Runs.antt =====
-- The theorems on runs, their outcome and the engine, at concrete inputs.
use mathlib.Core.Path.{subst}
use open_synapse.Engine.Process.Deadline.{set_duration_wraps}
use open_synapse.Engine.Process.Stop.{IsDue, IsStopped, stop-run, tick-stop}
use open_synapse.Engine.Process.Clock.{elapsed-run, elapsed_early_pause}
use open_synapse.Engine.Process.Manual.{IsHeld, set_vus_overtaken}
use open_synapse.Engine.Process.Control.{set_vus, set_duration, new_process}
use open_synapse.Engine.Process.Events.{run, change_pause, begin}
use open_synapse.Engine.Process.{
  decide_vus, mark_started, drive_schedule, elapsed, tick, RunProcess, patch_status, k6, apply_vus,
  raise_vus_max, patch_all, first_error,
}
use open_synapse.Engine.Process.Invariant.{IsSound, run-IsSound, IsValidSpec}
use open_synapse.Engine.Schedule.{target_at, target_from, ramp}
use open_synapse.Prelude.{◌≡◌, refl, true, false, none, some, [], ◌∷◌, inr, ◌⊎◌, arith}
use open_synapse.Prelude.Int.{pos, ◌+ℤ◌, ◌-ℤ◌, ◌≤ℤ◌, scale, InInt64}
use open_synapse.Prelude.Assoc.{string_eq}
use open_synapse.Examples.Numbers.{whole_numbers, times, over}
use open_synapse.Examples.Engine.Values.{
  seconds, ramp_up_down, two_workers, refusing, ramping, fresh_run, paused_once,
}

ramping-IsValidSpec : IsValidSpec whole_numbers ramping
unfolding target_at target_from ◌+ℤ◌ times over ◌-ℤ◌
ramping-IsValidSpec = record {
  room = λ sched on.
      let same : ramp_up_down ≡ sched = cc in
      subst (λ s. target_at whole_numbers s (pos 0) ≤ℤ pos 10) same (omega arith);
  room_none = omega arith;
  rps = omega arith;
  bound = inr (omega arith);
}

run-IsSound_example : IsSound ramping (run whole_numbers two_workers paused_once fresh_run)
run-IsSound_example = run-IsSound whole_numbers two_workers ramping paused_once ramping-IsValidSpec

-- 10 s before the pause, and 85 s after it
elapsed-run_example :
    elapsed (run whole_numbers two_workers paused_once fresh_run) (seconds 200) ≡ seconds 95
unfolding ◌+ℤ◌ ◌-ℤ◌
elapsed-run_example =
    elapsed-run whole_numbers two_workers ramping paused_once (seconds 200) refl
      (tt, (tt, (tt, (tt, tt))))

-- paused at 10 s, started at 30 s, resumed at 40 s: at 50 s the engine counts -10 s
elapsed_early_pause_example :
    elapsed
        (run whole_numbers two_workers
          (change_pause (seconds 10) true
            ∷ begin (seconds 30)
            ∷ change_pause (seconds 40) false
            ∷ [])
          fresh_run)
        (seconds 50)
      +ℤ seconds 20
    ≡ seconds 10
unfolding ◌-ℤ◌
elapsed_early_pause_example =
    elapsed_early_pause whole_numbers two_workers ramping (seconds 10) (seconds 30) (seconds 40)
      (seconds 50) refl

-- started at 100 s, and so due at 140 s
abbrev executing : RunProcess
executing = mark_started (seconds 100) fresh_run

tick-stop_example :
    let driven = drive_schedule two_workers whole_numbers (seconds 200) executing in
    let after = tick two_workers whole_numbers (seconds 200) executing in
    (IsDue (seconds 200) executing
      × (after.stop_requested ≡ true)
      × IsStopped two_workers driven.calls after.calls)
    ⊎ (¬ IsDue (seconds 200) executing × (after ≡ driven))
tick-stop_example = tick-stop whole_numbers two_workers (seconds 200) executing

executing-IsDue : IsDue (seconds 200) executing
unfolding mark_started elapsed new_process ◌-ℤ◌ ◌+ℤ◌
executing-IsDue = (refl, omega arith, omega arith, refl)

abbrev stopping : RunProcess
stopping = record fresh_run { stop_requested = true }

stop-run_example :
    ((run whole_numbers two_workers paused_once stopping).stop_requested ≡ true)
    × (tick two_workers whole_numbers
          (seconds 900)
          (run whole_numbers two_workers paused_once stopping)
        ≡ run whole_numbers two_workers paused_once stopping)
stop-run_example = stop-run whole_numbers two_workers paused_once stopping (seconds 900) refl

refused : (set_vus refusing (pos 5) fresh_run).0 ≡ some (k6 "500 Internal Server Error")
unfolding set_vus new_process apply_vus raise_vus_max patch_status patch_all first_error
refused = refl

-- At 115 s the schedule decides on 10 VUs.
decided :
    (decide_vus two_workers whole_numbers ramp_up_down (seconds 115) executing).0 ≡ some (pos 10)
unfolding decide_vus mark_started new_process target_at target_from ramp elapsed times over ◌+ℤ◌
    ◌-ℤ◌
decided = refl

accepted :
    (set_vus two_workers
      (pos 3)
      (decide_vus two_workers whole_numbers ramp_up_down (seconds 115) executing).1).0
    ≡ none
unfolding set_vus apply_vus raise_vus_max patch_status patch_all first_error decide_vus mark_started
    new_process target_at target_from ramp elapsed times over ◌+ℤ◌ ◌-ℤ◌
accepted = refl

sent_late :
    (apply_vus two_workers
      (pos 10)
      (set_vus two_workers
        (pos 3)
        (decide_vus two_workers whole_numbers ramp_up_down (seconds 115) executing).1).1).0
    ≡ none
unfolding set_vus apply_vus raise_vus_max patch_status patch_all first_error decide_vus mark_started
    new_process target_at target_from ramp elapsed times over ◌+ℤ◌ ◌-ℤ◌
sent_late = refl

-- The run shows 3 VUs, and k6 runs 10.
set_vus_overtaken_example : IsHeld (pos 3) (pos 10) (
    run whole_numbers two_workers paused_once
      (apply_vus two_workers
        (pos 10)
        (set_vus two_workers
          (pos 3)
          (decide_vus two_workers whole_numbers ramp_up_down (seconds 115) executing).1).1).1)
set_vus_overtaken_example =
    set_vus_overtaken whole_numbers two_workers ramp_up_down (seconds 115) (pos 3) (pos 10)
      executing paused_once decided accepted sent_late (tt, (tt, (tt, (tt, tt))))

minute_fits : InInt64 (scale (pos 60) 1000000000)
unfolding scale
minute_fits = (omega arith, omega arith)

-- 584 years are accepted as 0.29 s
set_duration_wraps_example :
    ((set_duration two_workers (seconds 0) (pos 18446744074) fresh_run).0 ≡ none)
    × ((set_duration two_workers (seconds 0) (pos 18446744074) fresh_run).1.planned_end
        ≡ pos 290448384)
unfolding new_process
set_duration_wraps_example =
    set_duration_wraps two_workers (seconds 0) 18446744074 290448384 1 fresh_run refl (omega arith)
      (omega arith) (omega arith) (omega arith)
