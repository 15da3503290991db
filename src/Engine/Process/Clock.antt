-- ===== src/Engine/Process/Clock.antt =====
-- The time that counts towards a run's schedule and deadline, against a stopwatch.
use open_synapse.Prelude.{◌≡◌, refl, Bool, true, false, List, [], ◌∷◌, arith}
use open_synapse.Prelude.Int.{ℤ, pos, ◌+ℤ◌, ◌-ℤ◌, wrap64, scale, int_laws}
use open_synapse.Float64.{Float64}
use text.Mathlib.Text.{◌==◌ as str_eq}
use open_synapse.Engine.Process.{
  Attr, Backend, RunSpec, RunProcess, mark_started, add_log, elapsed, apply_vus, kill_backend,
  request_stop, drive_schedule, enforce_deadline, tick,
}
use open_synapse.Engine.Process.Control.{
  new_process, set_vus, note_pause, set_paused, set_duration, kill_run, grace_expired,
  resume_schedule, set_rps,
}
use open_synapse.Engine.Process.Events.{
  Event, elapse, begin, clock, log_line, change_vus, change_rps, change_pause, change_duration,
  resume, stop, kill, grace, step, run,
}
use open_synapse.Engine.Process.Frames.{
  patch_status_frame, apply_vus_frame, request_stop_frame, enforce_deadline_frame,
  drive_schedule_frame,
}

-- The specification: a stopwatch that has counted some time, and runs since an instant, or is held.
pub data Watch : Type 0 where
  idle : Watch
  going : ℤ → ℤ → Watch
  held : ℤ → Watch

abbrev pub watch_step : Event → Watch → Watch
watch_step (begin now) idle = going (pos 0) now
watch_step (change_pause now true) (going acc since) = held (acc +ℤ (now -ℤ since))
watch_step (change_pause now false) (held acc) = going acc now
watch_step _ w = w

abbrev pub watch : List Event → Watch → Watch
watch [] w = w
watch (e ∷ es) w = watch es (watch_step e w)

abbrev pub reading : Watch → ℤ → ℤ
reading idle now = pos 0
reading (going acc since) now = acc +ℤ (now -ℤ since)
reading (held acc) now = acc

-- Nobody pauses the run before its instances execute.
abbrev pub Fits : Event → Watch → Type 0
Fits (change_pause now true) idle = ⊥
Fits _ _ = Unit

abbrev pub NoEarlyPause : List Event → Watch → Type 0
NoEarlyPause [] w = Unit
NoEarlyPause (e ∷ es) w = Fits e w × NoEarlyPause es (watch_step e w)

-- The clock fields of two states agree.
record SameClock (a b : RunProcess) : Type 0 where
  spec : a.spec ≡ b.spec
  started : a.started ≡ b.started
  start : a.start ≡ b.start
  paused : a.paused ≡ b.paused
  paused_at : a.paused_at ≡ b.paused_at
  paused_total : a.paused_total ≡ b.paused_total

-- The events that leave the clock alone.
abbrev IsQuiet : Event → Type 0
IsQuiet (begin _) = ⊥
IsQuiet (change_pause _ _) = ⊥
IsQuiet _ = Unit

module _ (fl : Float64) (be : Backend) where
  SameClock-deadline : (now : ℤ) (rp : RunProcess) → SameClock (enforce_deadline be now rp) rp
  SameClock-deadline now rp = rw (enforce_deadline_frame be now rp) (ground arith)

  SameClock-schedule : (now : ℤ) (rp : RunProcess) → SameClock (drive_schedule be fl now rp) rp
  SameClock-schedule now rp = rw (drive_schedule_frame be fl now rp) (ground arith)

  SameClock-apply_vus : (n : ℤ) (rp : RunProcess) → SameClock (apply_vus be n rp).1 rp
  SameClock-apply_vus n rp = rw (apply_vus_frame be n rp) (ground arith)

  SameClock-stop : (rp : RunProcess) → SameClock (request_stop be rp) rp
  SameClock-stop rp = rw (request_stop_frame be rp) (ground arith)

  quiet_step : (e : Event) (rp : RunProcess) → IsQuiet e → SameClock (step fl be e rp) rp
  unfolding step add_log tick set_vus set_duration kill_run grace_expired kill_backend
      resume_schedule set_rps
  quiet_step (begin now) rp q = absurd q
  quiet_step (change_pause now paused) rp q = absurd q
  quiet_step (clock now) rp q =
      ground
        (arith, SameClock-deadline now (drive_schedule be fl now rp), SameClock-schedule now rp)
  quiet_step elapse rp q = ground arith
  quiet_step (log_line line) rp q = ground arith
  quiet_step (change_vus n) rp q = ground (arith, SameClock-apply_vus n rp)
  quiet_step (change_rps n) rp q = ground arith
  quiet_step (change_duration now seconds) rp q =
      let moved : RunProcess = record rp { planned_end = wrap64 (scale seconds 1000000000) } in
      ground (arith, SameClock-deadline now moved)
  quiet_step resume rp q = ground arith
  quiet_step stop rp q = SameClock-stop rp
  quiet_step kill rp q = ground arith
  quiet_step grace rp q = ground arith

-- A run's clock fields stand for the stopwatch.
abbrev Stands : Watch → RunProcess → Type 0
Stands idle rp = (rp.started ≡ false) × (rp.paused ≡ false) × (rp.paused_total ≡ pos 0)
Stands (going acc since) rp =
    (rp.started ≡ true) × (rp.paused ≡ false) × (since -ℤ rp.start -ℤ rp.paused_total ≡ acc)
Stands (held acc) rp =
    (rp.started ≡ true) × (rp.paused ≡ true) × (rp.paused_at -ℤ rp.start -ℤ rp.paused_total ≡ acc)

Stands-SameClock : (w : Watch) (a b : RunProcess) → SameClock a b → Stands w b → Stands w a
Stands-SameClock idle a b s h = ground arith
Stands-SameClock (going acc since) a b s h = ground arith
Stands-SameClock (held acc) a b s h = ground arith

running_on :
    (now start total since : ℤ) → now -ℤ start -ℤ total ≡ since -ℤ start -ℤ total +ℤ (now -ℤ since)
running_on now start total since = omega int_laws

held_back : (now start total at : ℤ) → now -ℤ start -ℤ (total +ℤ (now -ℤ at)) ≡ at -ℤ start -ℤ total
held_back now start total at = omega int_laws

from_zero : (now : ℤ) → now -ℤ now -ℤ pos 0 ≡ pos 0
from_zero now = omega int_laws

elapsed-Stands :
    (w : Watch) (rp : RunProcess) (now : ℤ) → Stands w rp → elapsed rp now ≡ reading w now
unfolding elapsed
elapsed-Stands idle rp now h = ground arith
elapsed-Stands (going acc since) rp now h =
    ground (arith, running_on now rp.start rp.paused_total since)
elapsed-Stands (held acc) rp now h =
    ground (arith, held_back now rp.start rp.paused_total rp.paused_at)

module _ (fl : Float64) (be : Backend) where
  Stands-quiet :
      (w : Watch) (e : Event) (rp : RunProcess)
      → IsQuiet e
      → Stands w rp
      → Stands w (step fl be e rp)
  Stands-quiet w e rp q h = Stands-SameClock w (step fl be e rp) rp (quiet_step fl be e rp q) h

  Stands-begin :
      (w : Watch) (now : ℤ) (rp : RunProcess)
      → Stands w rp
      → Stands (watch_step (begin now) w) (step fl be (begin now) rp)
  unfolding step mark_started
  Stands-begin idle now rp h = ground (arith, from_zero now)
  Stands-begin (going acc since) now rp h = ground arith
  Stands-begin (held acc) now rp h = ground arith

  Stands-pause :
      (w : Watch) (now : ℤ) (paused : Bool) (rp : RunProcess)
      → str_eq rp.spec.control_url "" ≡ false
      → Fits (change_pause now paused) w
      → Stands w rp
      → Stands (watch_step (change_pause now paused) w) (step fl be (change_pause now paused) rp)
  unfolding step set_paused note_pause
  Stands-pause idle now true rp u m h = absurd m
  Stands-pause idle now false rp u m h = ground arith
  Stands-pause (going acc since) now true rp u m h =
      ground (arith, running_on now rp.start rp.paused_total since)
  Stands-pause (going acc since) now false rp u m h = ground arith
  Stands-pause (held acc) now true rp u m h = ground arith
  Stands-pause (held acc) now false rp u m h =
      ground (arith, held_back now rp.start rp.paused_total rp.paused_at)

  Stands-step :
      (w : Watch) (e : Event) (rp : RunProcess)
      → str_eq rp.spec.control_url "" ≡ false
      → Fits e w
      → Stands w rp
      → Stands (watch_step e w) (step fl be e rp)
  Stands-step w (begin now) rp u f h = Stands-begin w now rp h
  Stands-step w (change_pause now paused) rp u f h = Stands-pause w now paused rp u f h
  Stands-step w e rp u f h = Stands-quiet w e rp tt h

  spec-step : (e : Event) (rp : RunProcess) → (step fl be e rp).spec ≡ rp.spec
  unfolding step mark_started set_paused note_pause
  spec-step (begin now) rp = ground arith
  spec-step (change_pause now paused) rp =
      ground (arith, patch_status_frame be (Attr.pause paused) rp)
  spec-step e rp = (quiet_step fl be e rp tt).spec

  Stands-run :
      (w : Watch) (es : List Event) (rp : RunProcess)
      → str_eq rp.spec.control_url "" ≡ false
      → NoEarlyPause es w
      → Stands w rp
      → Stands (watch es w) (run fl be es rp)
  unfolding run
  Stands-run w [] rp u f h = h
  Stands-run w (e ∷ es) rp u f h =
      Stands-run (watch_step e w) es (step fl be e rp) (rw (spec-step e rp) u) f.1
        (Stands-step w e rp u f.0 h)

-- The time that the engine counts for the schedule and the deadline is the time for which the run
-- was executing and not paused, after any events in any order, for a run with the control scenario
-- that nobody pauses before its instances execute.
pub elapsed-run :
    (fl : Float64) (be : Backend) (spec : RunSpec) (es : List Event) (now : ℤ)
    → str_eq spec.control_url "" ≡ false
    → NoEarlyPause es idle
    → elapsed (run fl be es (new_process fl spec)) now ≡ reading (watch es idle) now
unfolding new_process
elapsed-run fl be spec es now u f =
    elapsed-Stands (watch es idle) (run fl be es (new_process fl spec)) now
      (Stands-run fl be idle es (new_process fl spec) u f (refl, refl, refl))

lost_start : (t s u now : ℤ) → now -ℤ s -ℤ (pos 0 +ℤ (u -ℤ t)) +ℤ (s -ℤ t) ≡ now -ℤ u
lost_start t s u now = omega int_laws

-- A pause requested before the instances execute is counted against the run: after pausing at `t`,
-- starting at `s`, and resuming at `u`, the engine counts less than the time since the resumption,
-- by the time `s - t` that passed before the start.
pub elapsed_early_pause :
    (fl : Float64) (be : Backend) (spec : RunSpec) (t s u now : ℤ)
    → str_eq spec.control_url "" ≡ false
    → elapsed
          (run fl be
            (change_pause t true ∷ begin s ∷ change_pause u false ∷ [])
            (new_process fl spec))
          now
        +ℤ (s -ℤ t)
      ≡ now -ℤ u
unfolding elapsed run step set_paused note_pause mark_started new_process
elapsed_early_pause fl be spec t s u now e = ground (arith, lost_start t s u now)
