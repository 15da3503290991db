-- ===== src/Engine/Process/Events.antt =====
-- The life of a run as a sequence of events: its loop's ticks, the instances starting, log lines,
-- and the live-control requests, each an atomic action on the run's state; and moments that pass, after
-- which other instances may be there, and answer in another way.
use open_synapse.Prelude.{String, Bool, List, [], ◌∷◌, ◌++◌}
use open_synapse.Prelude.Int.{ℤ}
use open_synapse.Float64.{Float64}
use open_synapse.Engine.Process.{
  Backend, RunProcess, moment, mark_started, add_log, tick, request_stop,
}
use open_synapse.Engine.Process.Control.{
  set_vus, set_paused, set_duration, kill_run, grace_expired, resume_schedule, set_rps,
}

pub data Event : Type 0 where
  begin clock : ℤ → Event
  log_line : String → Event
  change_vus change_rps : ℤ → Event
  change_pause : ℤ → Bool → Event
  change_duration : ℤ → ℤ → Event
  resume stop kill grace elapse : Event

module _ (fl : Float64) (be : Backend) where
  unfoldable pub step : Event → RunProcess → RunProcess
  step (begin now) rp = mark_started now rp
  step (clock now) rp = tick be fl now rp
  step (log_line line) rp = add_log line rp
  step (change_vus n) rp = (set_vus be n rp).1
  step (change_rps n) rp = (set_rps n rp).1
  step (change_pause now paused) rp = (set_paused be now paused rp).1
  step (change_duration now seconds) rp = (set_duration be now seconds rp).1
  step resume rp = (resume_schedule rp).1
  step stop rp = request_stop be rp
  step kill rp = (kill_run be rp).1
  step grace rp = grace_expired be rp
  step elapse rp = record rp { calls = rp.calls ++ moment ∷ [] }

  unfoldable pub run : List Event → RunProcess → RunProcess
  run [] rp = rp
  run (e ∷ es) rp = run es (step e rp)
