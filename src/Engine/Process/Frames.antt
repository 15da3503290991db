-- ===== src/Engine/Process/Frames.antt =====
-- What a status change, a VU change, a schedule round and a stop request leave alone.
use open_synapse.Prelude.{
  String, ◌≡◌, refl, inl, inr, true, Option, none, some, List, [], ◌∷◌, arith, Option-cases,
}
use open_synapse.Prelude.Int.{ℤ, ◌≤ℤ◌}
use open_synapse.Float64.{Float64}
use open_synapse.Engine.Schedule.{Schedule, target_at}
use open_synapse.Engine.Process.{
  EngineError, Attr, Backend, RunProcess, patch_all, patch_status, raise_vus_max, apply_vus,
  force_stop, request_stop, follow_schedule, elapsed, drive_schedule, enforce_deadline,
  kill_backend,
}

-- A run as it was, but for what it asked of its backend.
abbrev pub SameButCalls : RunProcess → RunProcess → Type 0
SameButCalls rp rp' = rp' ≡ record rp { calls = rp'.calls }

-- A run as it was, but for the calls, the VU count sent, and the VU ceiling.
abbrev pub SameButVus : RunProcess → RunProcess → Type 0
SameButVus rp rp' =
    rp' ≡ record rp { calls = rp'.calls; sent_vus = rp'.sent_vus; vus_max = rp'.vus_max }

module _ (be : Backend) where
  patch_all_frame :
      (apis : List String) (attr : Attr) (rp : RunProcess)
      → SameButCalls rp (patch_all be apis attr rp).1
  unfolding patch_all
  patch_all_frame [] attr rp = refl
  patch_all_frame (api ∷ rest) attr rp = refl

  pub patch_status_frame :
      (attr : Attr) (rp : RunProcess) → SameButCalls rp (patch_status be attr rp).1
  unfolding patch_status
  patch_status_frame attr rp = patch_all_frame (be.apis rp.calls) attr rp

  pub raise_vus_max_frame : (n : ℤ) (rp : RunProcess) → SameButVus rp (raise_vus_max be n rp).1
  unfolding raise_vus_max
  raise_vus_max_frame n rp = ground (arith, patch_status_frame (Attr.vus_max n) rp)

  pub apply_vus_frame : (n : ℤ) (rp : RunProcess) → SameButVus rp (apply_vus be n rp).1
  unfolding apply_vus
  apply_vus_frame n rp =
      ground
        (arith, raise_vus_max_frame n rp, patch_status_frame (Attr.vus n) (raise_vus_max be n rp).1)

  pub force_stop_frame :
      (e : Option EngineError) (rp : RunProcess) → SameButCalls rp (force_stop be e rp)
  unfolding force_stop kill_backend
  force_stop_frame none rp = refl
  force_stop_frame (some e) rp = ground arith

  -- A stop request sets its flag and makes calls.
  pub request_stop_frame :
      (rp : RunProcess)
      → request_stop be rp ≡ record rp { stop_requested = true; calls = (request_stop be rp).calls }
  unfolding request_stop
  request_stop_frame rp =
      let asked : RunProcess = record rp { stop_requested = true } in
      let (e, rp') = patch_status be Attr.stopped asked in
      ground (arith, patch_status_frame Attr.stopped asked, force_stop_frame e rp')

  -- Enforcing the deadline sets at most the stop flag, and makes calls.
  pub enforce_deadline_frame :
      (now : ℤ) (rp : RunProcess)
      → enforce_deadline be now rp ≡ record rp {
        stop_requested = (enforce_deadline be now rp).stop_requested;
        calls = (enforce_deadline be now rp).calls;
      }
  unfolding enforce_deadline
  enforce_deadline_frame now rp = ground (arith, request_stop_frame rp)

  pub follow_schedule_frame :
      (fl : Float64) (sched : Schedule) (now : ℤ) (rp : RunProcess)
      → SameButVus
          (record rp { target_vus = (follow_schedule be fl sched now rp).target_vus })
          (follow_schedule be fl sched now rp)
  unfolding follow_schedule
  follow_schedule_frame fl sched now rp =
      let target = target_at fl sched (elapsed rp now) in
      ground (arith, apply_vus_frame target (record rp { target_vus = target }))

  -- A round of the schedule sets the target, and changes VUs.
  pub drive_schedule_frame :
      (fl : Float64) (now : ℤ) (rp : RunProcess)
      → SameButVus
          (record rp { target_vus = (drive_schedule be fl now rp).target_vus })
          (drive_schedule be fl now rp)
  unfolding drive_schedule
  drive_schedule_frame fl now rp = elim (Option-cases rp.spec.schedule) [
    | inl off ↦ ground arith
    | inr (sched, on) ↦ ground (arith, follow_schedule_frame fl sched now rp)
  ]

  -- A VU change never lowers the ceiling, and never leaves more VUs than it admits.
  pub apply_vus_capped :
      (n : ℤ) (rp : RunProcess)
      → rp.sent_vus ≤ℤ rp.vus_max
      → ((apply_vus be n rp).1.sent_vus ≤ℤ (apply_vus be n rp).1.vus_max)
        × (rp.vus_max ≤ℤ (apply_vus be n rp).1.vus_max)
  unfolding apply_vus raise_vus_max
  apply_vus_capped n rp h = ground (
    arith,
    patch_status_frame (Attr.vus_max n) rp,
    raise_vus_max_frame n rp,
    patch_status_frame (Attr.vus n) (raise_vus_max be n rp).1,
  )

  pub drive_schedule_capped :
      (fl : Float64) (now : ℤ) (rp : RunProcess)
      → rp.sent_vus ≤ℤ rp.vus_max
      → ((drive_schedule be fl now rp).sent_vus ≤ℤ (drive_schedule be fl now rp).vus_max)
        × (rp.vus_max ≤ℤ (drive_schedule be fl now rp).vus_max)
  unfolding drive_schedule follow_schedule
  drive_schedule_capped fl now rp h = elim (Option-cases rp.spec.schedule) [
    | inl off ↦ ground arith
    | inr (sched, on) ↦
        let target = target_at fl sched (elapsed rp now) in
        ground (arith, apply_vus_capped target (record rp { target_vus = target }))
  ]
