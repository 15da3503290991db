-- ===== src/Engine/Process/Control.antt =====
-- apps/control-plane/internal/engine/engine.go: live control of one run, the state that a client
-- sees, and what a run starts from.
use open_synapse.Prelude.{
  String, Bool, true, false, not, ◌&&◌, ◌||◌, Option, none, some, [], if◌then◌else◌,
}
use open_synapse.Prelude.Int.{ℤ, pos, negsuc, ◌+ℤ◌, ◌-ℤ◌, ltb_ℤ, leb_ℤ, quot, wrap64, scale}
use open_synapse.Float64.{Float64}
use open_synapse.Engine.Schedule.{Schedule, target_at}
use text.Mathlib.Text.{◌==◌ as str_eq}
use open_synapse.Engine.Process.{
  unsupported, negative_vus, negative_rps, bad_duration, too_long, pause, Backend, RunSpec,
  RunProcess, Action, ◌>>◌, modify, elapsed, patch_status, apply_vus, kill_backend,
  enforce_deadline,
}

-- the run process that StartRun builds
unfoldable pub new_process : Float64 → RunSpec → RunProcess
new_process fl spec =
    let target : ℤ = elim spec.schedule [
      | none ↦ pos 0
      | some sched ↦ target_at fl sched (pos 0)
    ] in
    record {
      spec = spec;
      started = false;
      start = pos 0;
      paused = false;
      paused_at = pos 0;
      paused_total = pos 0;
      manual_vus = false;
      target_vus = target;
      sent_vus = target;
      vus_max = spec.max_vus;
      rps_target = spec.rps_target;
      planned_end = spec.planned_duration;
      stop_requested = false;
      killed = false;
      log_tail = [];
      calls = [];
    }

module _ (be : Backend) where
  -- SetVUs, of an active run
  unfoldable pub set_vus : ℤ → Action
  set_vus n rp = elim rp.spec.schedule [
    | none ↦ (some unsupported, rp)
    | some _ ↦
        if ltb_ℤ n (pos 0)
        then (some negative_vus, rp)
        else (apply_vus be n >> modify (λ r. record r { manual_vus = true; target_vus = n })) rp
  ]

  -- the part of SetPaused under the lock
  unfoldable pub note_pause : ℤ → Bool → RunProcess → RunProcess
  note_pause now paused rp =
      if paused && not rp.paused
      then record rp { paused = true; paused_at = now }
      else if not paused && rp.paused
      then record rp { paused = false; paused_total = rp.paused_total +ℤ (now -ℤ rp.paused_at) }
      else rp

  -- SetPaused, of an active run
  unfoldable pub set_paused : ℤ → Bool → Action
  set_paused now paused rp =
      if str_eq rp.spec.control_url ""
      then (patch_status be (pause paused) >> modify (note_pause now paused)) rp
      else (none, note_pause now paused rp)

  -- SetDuration, of an active run; the product is an int64
  unfoldable pub set_duration : ℤ → ℤ → Action
  set_duration now seconds rp =
      let d = wrap64 (scale seconds 1000000000) in
      if leb_ℤ rp.spec.planned_duration (pos 0)
      then (some unsupported, rp)
      else if leb_ℤ d (pos 0)
      then (some bad_duration, rp)
      else if ltb_ℤ (pos 0) rp.spec.max_duration && ltb_ℤ rp.spec.max_duration d
      then (some too_long, rp)
      else (none, enforce_deadline be now (record rp { planned_end = d }))

  -- KillRun, of an active run
  unfoldable pub kill_run : Action
  kill_run rp = kill_backend be (record rp { killed = true })

  -- the goroutine of requestStop, when the grace period ends before the run does
  unfoldable pub grace_expired : RunProcess → RunProcess
  grace_expired rp = (kill_backend be rp).1

-- ResumeSchedule, of an active run
unfoldable pub resume_schedule : Action
resume_schedule rp = elim rp.spec.schedule [
  | none ↦ (some unsupported, rp)
  | some _ ↦ (none, record rp { manual_vus = false })
]

-- SetRPS, of an active run
unfoldable pub set_rps : ℤ → Action
set_rps rps rp =
    if str_eq rp.spec.control_url ""
    then (some unsupported, rp)
    else if ltb_ℤ rps (pos 0)
    then (some negative_rps, rp)
    else (none, record rp { rps_target = rps })

-- ControlState
pub record ControlState : Type 0 where
  pub rps_target : ℤ
  pub should_stop : Bool
  pub paused : Bool

-- ControlStateFor, of an active run
unfoldable pub control_state_for : String → RunProcess → Option ControlState
control_state_for token rp =
    if str_eq rp.spec.control_token "" || not (str_eq token rp.spec.control_token)
    then none
    else some
        (record { rps_target = rp.rps_target; should_stop = rp.stop_requested; paused = rp.paused })

-- LiveState; times are whole seconds
pub record LiveState : Type 0 where
  pub target_vus : ℤ
  pub active_vus : ℤ
  pub max_vus : ℤ
  pub rps_target : ℤ
  pub paused : Bool
  pub manual_vus : Bool
  pub elapsed_seconds : ℤ
  pub remaining_seconds : ℤ
  pub max_duration_secs : ℤ
  pub stopping : Bool
  pub can_control_vus : Bool
  pub can_control_rps : Bool
  pub can_control_dur : Bool
  pub workers : ℤ
  pub starting : Bool

abbrev has_schedule : Option Schedule → Bool
has_schedule none = false
has_schedule (some _) = true

-- int(d.Seconds())
abbrev pub seconds_of : ℤ → ℤ
seconds_of d = quot d 1000000000

-- state; `active` is the VU count that the aggregator holds
unfoldable pub live_state : ℤ → RunProcess → ℤ → LiveState
live_state active rp now =
    let el = elapsed rp now in
    let left = rp.planned_end -ℤ el in
    let rem = if ltb_ℤ left (pos 0) then pos 0 else left in
    record {
      target_vus = if has_schedule rp.spec.schedule then rp.target_vus else active;
      active_vus = active;
      max_vus = rp.vus_max;
      rps_target = rp.rps_target;
      paused = rp.paused;
      manual_vus = rp.manual_vus;
      elapsed_seconds = seconds_of el;
      remaining_seconds = if ltb_ℤ (pos 0) rp.planned_end then seconds_of rem else negsuc 0;
      max_duration_secs = seconds_of rp.spec.max_duration;
      stopping = rp.stop_requested;
      can_control_vus = has_schedule rp.spec.schedule;
      can_control_rps = not (str_eq rp.spec.control_url "");
      can_control_dur = ltb_ℤ (pos 0) rp.spec.planned_duration;
      workers = rp.spec.instances;
      starting = not rp.started;
    }
