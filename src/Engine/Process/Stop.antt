-- ===== src/Engine/Process/Stop.antt =====
-- The end of a run: its deadline, graceful stops and kills.
use open_synapse.Prelude.{
  ◌≡◌, refl, ◌≢◌, ◌⊎◌, inl, inr, true, false, none, List, [], ◌∷◌, ◌++◌, map, arith, Option-cases,
}
use open_synapse.Prelude.Int.{ℤ, pos, ◌≤ℤ◌, ◌<ℤ◌, wrap64, scale}
use open_synapse.Float64.{Float64}
use open_synapse.Engine.Schedule.{Schedule}
use open_synapse.Engine.Process.{
  Attr, Call, patch, interrupt_all, kill_all, request_stop, force_stop, patch_status, Backend,
  RunProcess, mark_started, add_log, elapsed, kill_backend, follow_schedule, drive_schedule,
  enforce_deadline, tick,
}
use open_synapse.Engine.Process.Control.{
  set_vus, note_pause, set_paused, set_duration, kill_run, grace_expired, resume_schedule, set_rps,
}
use open_synapse.Engine.Process.Events.{
  Event, elapse, begin, clock, log_line, change_vus, change_rps, change_pause, change_duration,
  resume, stop, kill, grace, step, run,
}
use open_synapse.Engine.Process.Manual.{AllAccept, patch_status_lem}
use open_synapse.Engine.Process.Frames.{
  patch_status_frame, apply_vus_frame, request_stop_frame, drive_schedule_frame,
}

-- The run is executing, has a planned end, has counted up to it, and is not stopping yet.
abbrev pub IsDue : ℤ → RunProcess → Type 0
IsDue now rp =
    (rp.started ≡ true)
    × (pos 0 <ℤ rp.planned_end)
    × (rp.planned_end ≤ℤ elapsed rp now)
    × (rp.stop_requested ≡ false)

-- k6 runs and every instance accepts the stop, given the calls made before.
abbrev pub AcceptsStop : Backend → List Call → Type 0
AcceptsStop be calls = (be.apis calls ≢ []) × AllAccept be calls Attr.stopped (be.apis calls)

-- Every instance is asked to stop; unless all of them accept, the processes are interrupted; and if that
-- fails, they are killed.
abbrev pub IsStopped : Backend → List Call → List Call → Type 0
IsStopped be calls calls' =
    let asked = calls ++ map (λ a. patch a Attr.stopped) (be.apis calls) in
    (AcceptsStop be calls × (calls' ≡ asked))
    ⊎ (¬ AcceptsStop be calls
        × (((be.interrupt asked ≡ none) × (calls' ≡ asked ++ interrupt_all ∷ []))
            ⊎ ((be.interrupt asked ≢ none)
                × (calls' ≡ (asked ++ interrupt_all ∷ []) ++ kill_all ∷ []))))

request_stop-IsStopped :
    (be : Backend) (rp : RunProcess)
    → rp.stop_requested ≡ false
    → ((request_stop be rp).stop_requested ≡ true)
      × IsStopped be rp.calls (request_stop be rp).calls
unfolding request_stop force_stop kill_backend
request_stop-IsStopped be rp fresh =
    let marked : RunProcess = record rp { stop_requested = true } in
    let (made, accepted) = patch_status_lem be Attr.stopped marked in
    let asked = (patch_status be Attr.stopped marked).1 in
    let frame = patch_status_frame be Attr.stopped marked in
    elim (Option-cases (patch_status be Attr.stopped marked).0) [
      | inl fine ↦ (
        ground (arith, fine, frame, fresh),
        inl (accepted.0 fine, ground (arith, fine, made, fresh)),
      )
      | inr (e, bad) ↦
          let refuses : ¬ AcceptsStop be rp.calls = λ h. cc (accepted.1 h) in
          elim (Option-cases (be.interrupt asked.calls)) [
            | inl gone ↦ (
              ground (arith, bad, frame, fresh, gone),
              inr (refuses, inl (rw (← made) gone, ground (arith, bad, made, fresh, gone))),
            )
            | inr (msg, stuck) ↦ (
              ground (arith, bad, frame, fresh, stuck),
              inr (
                refuses,
                inr (
                  (λ h. ground (arith, stuck, made, h)),
                  ground (arith, bad, made, fresh, stuck),
                ),
              ),
            )
          ]
    ]

module _ (fl : Float64) (be : Backend) where
  drive_schedule-stop :
      (now : ℤ) (rp : RunProcess)
      → ((drive_schedule be fl now rp).started ≡ rp.started)
        × ((drive_schedule be fl now rp).planned_end ≡ rp.planned_end)
        × (elapsed (drive_schedule be fl now rp) now ≡ elapsed rp now)
        × ((drive_schedule be fl now rp).stop_requested ≡ rp.stop_requested)
  unfolding elapsed
  drive_schedule-stop now rp = rw (drive_schedule_frame be fl now rp) (refl, refl, refl, refl)

  enforce_deadline-stop :
      (now : ℤ) (rp : RunProcess)
      → (IsDue now rp × (enforce_deadline be now rp ≡ request_stop be rp))
        ⊎ (¬ IsDue now rp × (enforce_deadline be now rp ≡ rp))
  unfolding enforce_deadline
  enforce_deadline-stop now rp = ground arith

  -- A round of the loop follows the schedule and then stops the run exactly if it is due, that is, if it
  -- executes, has a planned end, has counted up to it, and is not stopping yet. To stop it, every instance
  -- is asked to stop; unless there is one and all of them accept, the processes are interrupted; and if
  -- that fails, they are killed. If the run is not due, the round does nothing but follow the schedule.
  pub tick-stop :
      (now : ℤ) (rp : RunProcess)
      → let driven = drive_schedule be fl now rp in
        (IsDue now rp
          × ((tick be fl now rp).stop_requested ≡ true)
          × IsStopped be driven.calls (tick be fl now rp).calls)
        ⊎ (¬ IsDue now rp × (tick be fl now rp ≡ driven))
  unfolding tick
  tick-stop now rp =
      let driven = drive_schedule be fl now rp in
      let (started, planned, counted, asked) = drive_schedule-stop now rp in
      elim (enforce_deadline-stop now driven) [
        | inl (due, same) ↦
            let stop = request_stop-IsStopped be driven due.3 in
            inl (
              ground (arith, started, planned, counted, asked, due),
              rw same stop.0,
              rw same stop.1,
            )
        | inr (idle, same) ↦
            inr ((λ due. idle (ground (arith, started, planned, counted, asked, due))), same)
      ]

  follow_schedule_stopped :
      (sched : Schedule) (now : ℤ) (rp : RunProcess)
      → rp.stop_requested ≡ true
      → follow_schedule be fl sched now rp ≡ rp
  unfolding follow_schedule
  follow_schedule_stopped sched now rp h = ground arith

  tick_stopped : (now : ℤ) (rp : RunProcess) → rp.stop_requested ≡ true → tick be fl now rp ≡ rp
  unfolding tick drive_schedule enforce_deadline
  tick_stopped now rp h = elim (Option-cases rp.spec.schedule) [
    | inl off ↦ ground arith
    | inr (sched, on) ↦ ground (arith, follow_schedule_stopped sched now rp h)
  ]

-- The flags that only ever go up.
record Ends (a b : RunProcess) : Type 0 where
  stop_stays : a.stop_requested ≡ true → b.stop_requested ≡ true
  kill_stays : a.killed ≡ true → b.killed ≡ true

module _ (fl : Float64) (be : Backend) where
  Ends-deadline : (now : ℤ) (rp : RunProcess) → Ends rp (enforce_deadline be now rp)
  Ends-deadline now rp = elim (enforce_deadline-stop fl be now rp) [
    | inl (due, same) ↦ rw same (rw (request_stop_frame be rp) (ground arith))
    | inr (idle, same) ↦ rw same (record { stop_stays = λ h. h; kill_stays = λ h. h })
  ]

  Ends-step : (e : Event) (rp : RunProcess) → Ends rp (step fl be e rp)
  unfolding step mark_started add_log set_vus set_paused note_pause set_duration kill_run
      grace_expired kill_backend resume_schedule set_rps tick
  Ends-step (begin now) rp = ground arith
  Ends-step (clock now) rp =
      ground
        (arith, drive_schedule_frame be fl now rp, Ends-deadline now (drive_schedule be fl now rp))
  Ends-step elapse rp = ground arith
  Ends-step (log_line line) rp = ground arith
  Ends-step (change_vus n) rp = ground (arith, apply_vus_frame be n rp)
  Ends-step (change_rps n) rp = ground arith
  Ends-step (change_pause now paused) rp =
      ground (arith, patch_status_frame be (Attr.pause paused) rp)
  Ends-step (change_duration now seconds) rp =
      let moved : RunProcess = record rp { planned_end = wrap64 (scale seconds 1000000000) } in
      ground (arith, Ends-deadline now moved)
  Ends-step resume rp = ground arith
  Ends-step stop rp = ground (arith, request_stop_frame be rp)
  Ends-step kill rp = ground arith
  Ends-step grace rp = ground arith

  Ends-run : (es : List Event) (rp : RunProcess) → Ends rp (run fl be es rp)
  unfolding run
  Ends-run [] rp = record { stop_stays = λ h. h; kill_stays = λ h. h }
  Ends-run (e ∷ es) rp =
      let one = Ends-step e rp in
      let rest = Ends-run es (step fl be e rp) in
      record {
        stop_stays = λ h. rest.stop_stays (one.stop_stays h);
        kill_stays = λ h. rest.kill_stays (one.kill_stays h);
      }

-- A kill is final: no event, in any order, takes it back.
pub killed-run :
    (fl : Float64) (be : Backend) (es : List Event) (rp : RunProcess)
    → rp.killed ≡ true
    → (run fl be es rp).killed ≡ true
killed-run fl be es rp = (Ends-run fl be es rp).kill_stays

-- A stop request is final: no event, in any order, takes it back, and rounds of the loop after it change
-- nothing and ask nothing of k6.
pub stop-run :
    (fl : Float64) (be : Backend) (es : List Event) (rp : RunProcess) (now : ℤ)
    → rp.stop_requested ≡ true
    → ((run fl be es rp).stop_requested ≡ true)
      × (tick be fl now (run fl be es rp) ≡ run fl be es rp)
stop-run fl be es rp now h =
    let still = (Ends-run fl be es rp).stop_stays h in
    (still, tick_stopped fl be now (run fl be es rp) still)
