-- ===== src/Engine/Process/Invariant.antt =====
-- What holds of a run's state between two events, and survives every event.
use open_synapse.Prelude.{
  ◌-◌, ◌≤◌, ◌≡◌, inl, inr, Bool, some, List, [], ◌∷◌, ◌++◌, arith, Option-cases, length,
  length-append, length-drop, ◌⊎◌,
}
use open_synapse.Prelude.Int.{ℤ, pos, ◌≤ℤ◌, ◌<ℤ◌, wrap64, scale}
use open_synapse.Float64.{Float64}
use open_synapse.Engine.Schedule.{Schedule, target_at}
use open_synapse.Engine.Process.{
  Attr, Backend, RunSpec, RunProcess, mark_started, add_log, patch_status, apply_vus, kill_backend,
  request_stop, drive_schedule, enforce_deadline, tick,
}
use open_synapse.Engine.Process.Control.{
  new_process, set_vus, note_pause, set_paused, set_duration, kill_run, grace_expired,
  resume_schedule, set_rps,
}
use open_synapse.Engine.Process.Events.{
  Event, elapse, begin, clock, log_line, change_vus, change_rps, change_pause, change_duration,
  resume, stop, kill, grace, step, run,
}
use open_synapse.Engine.Process.Frames.{
  patch_status_frame, apply_vus_frame, request_stop_frame, enforce_deadline_frame,
  drive_schedule_frame, apply_vus_capped, drive_schedule_capped,
}

-- What the compiler and the run handler give the engine.
pub record IsValidSpec (fl : Float64) (spec : RunSpec) : Type 0 where
  pub room :
      (sched : Schedule) → spec.schedule ≡ some sched → target_at fl sched (pos 0) ≤ℤ spec.max_vus
  pub room_none : pos 0 ≤ℤ spec.max_vus
  pub rps : pos 0 ≤ℤ spec.rps_target
  pub bound : (spec.max_duration ≤ℤ pos 0) ⊎ (spec.planned_duration ≤ℤ spec.max_duration)

pub record IsSound (spec : RunSpec) (rp : RunProcess) : Type 0 where
  pub spec_kept : rp.spec ≡ spec
  pub sent_capped : rp.sent_vus ≤ℤ rp.vus_max
  pub ceiling_kept : spec.max_vus ≤ℤ rp.vus_max
  pub rps_nonneg : pos 0 ≤ℤ rp.rps_target
  pub end_bounded : (spec.max_duration ≤ℤ pos 0) ⊎ (rp.planned_end ≤ℤ spec.max_duration)
  pub end_enforced :
      ((pos 0 <ℤ spec.planned_duration) × (pos 0 <ℤ rp.planned_end))
      ⊎ ((spec.planned_duration ≤ℤ pos 0) × (rp.planned_end ≡ spec.planned_duration))
  pub tail_capped : length rp.log_tail ≤ 40

module _ (fl : Float64) (be : Backend) {spec : RunSpec} where
  new_process-IsSound : IsValidSpec fl spec → IsSound spec (new_process fl spec)
  unfolding new_process
  new_process-IsSound v = elim (Option-cases spec.schedule) [
    | inl off ↦ ground (arith, v.room_none)
    | inr (sched, on) ↦ ground (arith, v.room sched on)
  ]

module _ (be : Backend) {spec : RunSpec} where
  patch_status-IsSound :
      (attr : Attr) (rp : RunProcess) → IsSound spec rp → IsSound spec (patch_status be attr rp).1
  patch_status-IsSound attr rp h = rw (patch_status_frame be attr rp) (ground arith)

  apply_vus-IsSound :
      (n : ℤ) (rp : RunProcess) → IsSound spec rp → IsSound spec (apply_vus be n rp).1
  apply_vus-IsSound n rp h =
      let capped = apply_vus_capped be n rp h.sent_capped in
      rw (apply_vus_frame be n rp) (ground arith)

  request_stop-IsSound : (rp : RunProcess) → IsSound spec rp → IsSound spec (request_stop be rp)
  request_stop-IsSound rp h = rw (request_stop_frame be rp) (ground arith)

  enforce_deadline-IsSound :
      (now : ℤ) (rp : RunProcess) → IsSound spec rp → IsSound spec (enforce_deadline be now rp)
  enforce_deadline-IsSound now rp h = rw (enforce_deadline_frame be now rp) (ground arith)

  drive_schedule-IsSound :
      (fl : Float64) (now : ℤ) (rp : RunProcess)
      → IsSound spec rp
      → IsSound spec (drive_schedule be fl now rp)
  drive_schedule-IsSound fl now rp h =
      let capped = drive_schedule_capped be fl now rp h.sent_capped in
      rw (drive_schedule_frame be fl now rp) (ground arith)

  set_vus-IsSound : (n : ℤ) (rp : RunProcess) → IsSound spec rp → IsSound spec (set_vus be n rp).1
  unfolding set_vus
  set_vus-IsSound n rp h = ground (arith, apply_vus-IsSound n rp h)

  note_pause-IsSound :
      (now : ℤ) (paused : Bool) (rp : RunProcess)
      → IsSound spec rp
      → IsSound spec (note_pause be now paused rp)
  unfolding note_pause
  note_pause-IsSound now paused rp h = ground arith

  set_paused-IsSound :
      (now : ℤ) (paused : Bool) (rp : RunProcess)
      → IsSound spec rp
      → IsSound spec (set_paused be now paused rp).1
  unfolding set_paused
  set_paused-IsSound now paused rp h =
      let asked = (patch_status be (Attr.pause paused) rp).1 in
      ground (
        arith,
        note_pause-IsSound now paused rp h,
        patch_status-IsSound (Attr.pause paused) rp h,
        note_pause-IsSound now paused asked,
      )

  set_duration-IsSound :
      (now seconds : ℤ) (rp : RunProcess)
      → IsSound spec rp
      → IsSound spec (set_duration be now seconds rp).1
  unfolding set_duration
  set_duration-IsSound now seconds rp h =
      let moved : RunProcess = record rp { planned_end = wrap64 (scale seconds 1000000000) } in
      ground (arith, enforce_deadline-IsSound now moved)

  step-IsSound :
      (fl : Float64) (e : Event) (rp : RunProcess)
      → IsSound spec rp
      → IsSound spec (step fl be e rp)
  unfolding step mark_started add_log tick kill_run grace_expired kill_backend resume_schedule
      set_rps
  step-IsSound fl (begin now) rp h = ground arith
  step-IsSound fl (clock now) rp h =
      enforce_deadline-IsSound now (drive_schedule be fl now rp)
        (drive_schedule-IsSound fl now rp h)
  step-IsSound fl elapse rp h = ground (arith, h)
  step-IsSound fl (log_line line) rp h =
      let tail = rp.log_tail ++ line ∷ [] in
      ground (arith, length-append rp.log_tail (line ∷ []), length-drop (length tail - 40) tail)
  step-IsSound fl (change_vus n) rp h = set_vus-IsSound n rp h
  step-IsSound fl (change_rps n) rp h = ground arith
  step-IsSound fl (change_pause now paused) rp h = set_paused-IsSound now paused rp h
  step-IsSound fl (change_duration now seconds) rp h = set_duration-IsSound now seconds rp h
  step-IsSound fl resume rp h = ground arith
  step-IsSound fl stop rp h = request_stop-IsSound rp h
  step-IsSound fl kill rp h = ground arith
  step-IsSound fl grace rp h = ground arith

  steps-IsSound :
      (fl : Float64) (es : List Event) (rp : RunProcess)
      → IsSound spec rp
      → IsSound spec (run fl be es rp)
  unfolding run
  steps-IsSound fl [] rp h = h
  steps-IsSound fl (e ∷ es) rp h = steps-IsSound fl es (step fl be e rp) (step-IsSound fl e rp h)

-- Whatever the events of a run, in whatever order: no more VUs are sent than the ceiling that its
-- instances were given, the ceiling is never below the planned one, the request-rate limit is not
-- negative, the planned end never passes the hard bound (where there is one), stays positive where
-- the engine enforces an end and stays as planned where it does not, and at most 40 log lines are
-- kept. The specification is assumed to fit: its first target and its plan are within its bounds.
pub run-IsSound :
    (fl : Float64) (be : Backend) (spec : RunSpec) (es : List Event)
    → IsValidSpec fl spec
    → IsSound spec (run fl be es (new_process fl spec))
run-IsSound fl be spec es v =
    steps-IsSound be fl es (new_process fl spec) (new_process-IsSound fl be v)
