-- ===== src/Engine/Process/Manual.antt =====
-- Live VU changes: what a change does, and how long it holds.
use open_synapse.Prelude.{
  String, ◌≡◌, refl, sym, ◌≢◌, ◌↔◌, inl, inr, true, none, some, List, [], ◌∷◌, ◌++◌, map, arith,
  Option-cases, All,
}
use open_synapse.Prelude.Int.{ℤ, wrap64, scale}
use mathlib.Core.List.{append-nil}
use open_synapse.Float64.{Float64}
use open_synapse.Engine.Schedule.{Schedule}
use open_synapse.Engine.Process.{
  EngineError, Call, patch, Attr, Backend, RunProcess, mark_started, add_log, patch_all,
  patch_status, raise_vus_max, apply_vus, decide_vus, kill_backend, follow_schedule, drive_schedule,
  tick, first_error,
}
use open_synapse.Engine.Process.Control.{
  set_vus, note_pause, set_paused, set_duration, kill_run, grace_expired, set_rps,
}
use open_synapse.Engine.Process.Events.{
  Event, elapse, begin, clock, log_line, change_vus, change_rps, change_pause, change_duration,
  resume, stop, kill, grace, step, run,
}
use open_synapse.Engine.Process.Frames.{
  patch_status_frame, apply_vus_frame, request_stop_frame, enforce_deadline_frame,
}

-- Every instance accepts the change, given the calls made before.
abbrev pub AllAccept : Backend → List Call → Attr → List String → Type 0
AllAccept be calls attr = All (λ api. be.respond calls api attr ≡ none)

module _ (be : Backend) (calls : List Call) (attr : Attr) where
  first_error-none :
      (apis : List String)
      → first_error (map (λ a. be.respond calls a attr) apis) ≡ none
      → AllAccept be calls attr apis
  unfolding first_error
  first_error-none [] h = tt
  first_error-none (api ∷ rest) h = elim (Option-cases (be.respond calls api attr)) [
    | inl fine ↦ (fine, first_error-none rest (rw fine at h))
    | inr (msg, bad) ↦ cc (rw bad at h)
  ]

  AllAccept-none :
      (apis : List String)
      → AllAccept be calls attr apis
      → first_error (map (λ a. be.respond calls a attr) apis) ≡ none
  unfolding first_error
  AllAccept-none [] h = refl
  AllAccept-none (api ∷ rest) h = rw h.0 (AllAccept-none rest h.1)

module _ (be : Backend) where
  patch_all_lem :
      (apis : List String) (attr : Attr) (rp : RunProcess)
      → ((patch_all be apis attr rp).1.calls ≡ rp.calls ++ map (λ a. patch a attr) apis)
        × ((patch_all be apis attr rp).0 ≡ none ↔ (apis ≢ []) × AllAccept be rp.calls attr apis)
  unfolding patch_all
  patch_all_lem [] attr rp = (sym (append-nil _), ((λ e. cc), (λ h. absurd (h.0 refl))))
  patch_all_lem (api ∷ rest) attr rp = (
    refl,
    (
      (λ e. ((λ eq. cc), first_error-none be rp.calls attr (api ∷ rest) e)),
      (λ h. AllAccept-none be rp.calls attr (api ∷ rest) h.1),
    ),
  )

  -- A status change is sent to every instance, whether or not any of them refuses it, and it succeeds exactly when there is an instance and all of them accept it.
  pub patch_status_lem :
      (attr : Attr) (rp : RunProcess)
      → let apis = be.apis rp.calls in
        ((patch_status be attr rp).1.calls ≡ rp.calls ++ map (λ a. patch a attr) apis)
        × ((patch_status be attr rp).0 ≡ none ↔ (apis ≢ []) × AllAccept be rp.calls attr apis)
  unfolding patch_status
  patch_status_lem attr rp = patch_all_lem (be.apis rp.calls) attr rp

  raise_sent : (n : ℤ) (rp : RunProcess) → (raise_vus_max be n rp).1.sent_vus ≡ rp.sent_vus
  unfolding raise_vus_max
  raise_sent n rp = ground (arith, patch_status_frame be (Attr.vus_max n) rp)

  pub apply_vus_sent :
      (n : ℤ) (rp : RunProcess)
      → ((apply_vus be n rp).0 ≡ none → (apply_vus be n rp).1.sent_vus ≡ n)
        × ((apply_vus be n rp).0 ≢ none → (apply_vus be n rp).1.sent_vus ≡ rp.sent_vus)
  unfolding apply_vus
  apply_vus_sent n rp =
      let raised = (raise_vus_max be n rp).1 in
      (ground arith, ground (arith, raise_sent n rp, patch_status_frame be (Attr.vus n) raised))

module _ (be : Backend) where
  set_vus_accepted :
      (n : ℤ) (rp : RunProcess)
      → (set_vus be n rp).0 ≡ none
      → ((set_vus be n rp).1.manual_vus ≡ true)
        × ((set_vus be n rp).1.target_vus ≡ n)
        × ((set_vus be n rp).1.sent_vus ≡ n)
  unfolding set_vus
  set_vus_accepted n rp h = ground (arith, (apply_vus_sent be n rp).0)

  -- A VU change that is refused, by the engine or by k6, leaves the target, the count sent and the
  -- mode as they were.
  pub set_vus_refused :
      (n : ℤ) (rp : RunProcess) {e : EngineError}
      → (set_vus be n rp).0 ≡ some e
      → ((set_vus be n rp).1.manual_vus ≡ rp.manual_vus)
        × ((set_vus be n rp).1.target_vus ≡ rp.target_vus)
        × ((set_vus be n rp).1.sent_vus ≡ rp.sent_vus)
  unfolding set_vus
  set_vus_refused n rp h = ground (arith, (apply_vus_sent be n rp).1, apply_vus_frame be n rp)

module _ (fl : Float64) (be : Backend) where
  follow_schedule_manual :
      (sched : Schedule) (now : ℤ) (rp : RunProcess)
      → rp.manual_vus ≡ true
      → follow_schedule be fl sched now rp ≡ rp
  unfolding follow_schedule
  follow_schedule_manual sched now rp h = ground arith

  drive_schedule_manual :
      (now : ℤ) (rp : RunProcess) → rp.manual_vus ≡ true → drive_schedule be fl now rp ≡ rp
  unfolding drive_schedule
  drive_schedule_manual now rp h = elim (Option-cases rp.spec.schedule) [
    | inl off ↦ ground arith
    | inr (sched, on) ↦ ground (arith, follow_schedule_manual sched now rp h)
  ]

-- The events that neither hand the VU count back to the schedule nor give it a new value.
abbrev pub IsOther : Event → Type 0
IsOther (change_vus n) = ⊥
IsOther resume = ⊥
IsOther e = Unit

-- The VU count is the user's, with the target `n`, and `m` is the count that k6 was sent last.
abbrev pub IsHeld : ℤ → ℤ → RunProcess → Type 0
IsHeld n m rp = (rp.manual_vus ≡ true) × (rp.target_vus ≡ n) × (rp.sent_vus ≡ m)

module _ (fl : Float64) (be : Backend) (n m : ℤ) where
  IsHeld-step :
      (e : Event) (rp : RunProcess) → IsOther e → IsHeld n m rp → IsHeld n m (step fl be e rp)
  unfolding step mark_started add_log set_paused note_pause set_duration kill_run grace_expired
      kill_backend set_rps tick
  IsHeld-step (begin now) rp o h = ground arith
  IsHeld-step (clock now) rp o h =
      ground (arith, drive_schedule_manual fl be now rp h.0, enforce_deadline_frame be now rp)
  IsHeld-step elapse rp o h = ground arith
  IsHeld-step (log_line line) rp o h = ground arith
  IsHeld-step (change_vus v) rp o h = absurd o
  IsHeld-step (change_rps v) rp o h = ground arith
  IsHeld-step (change_pause now paused) rp o h =
      ground (arith, patch_status_frame be (Attr.pause paused) rp)
  IsHeld-step (change_duration now seconds) rp o h =
      let moved : RunProcess = record rp { planned_end = wrap64 (scale seconds 1000000000) } in
      ground (arith, enforce_deadline_frame be now moved)
  IsHeld-step resume rp o h = absurd o
  IsHeld-step stop rp o h = ground (arith, request_stop_frame be rp)
  IsHeld-step kill rp o h = ground arith
  IsHeld-step grace rp o h = ground arith

  IsHeld-run :
      (es : List Event) (rp : RunProcess)
      → All IsOther es
      → IsHeld n m rp
      → IsHeld n m (run fl be es rp)
  unfolding run
  IsHeld-run [] rp o h = h
  IsHeld-run (e ∷ es) rp o h = IsHeld-run es (step fl be e rp) o.1 (IsHeld-step e rp o.0 h)

-- A VU change that k6 accepted holds: the target and the count sent are the requested value after any events
-- but another VU change and the resumption of the schedule, where each event ends before the next begins
-- and none was under way when the change was made.
pub set_vus-run :
    (fl : Float64) (be : Backend) (n : ℤ) (rp : RunProcess) (es : List Event)
    → (set_vus be n rp).0 ≡ none
    → All IsOther es
    → IsHeld n n (run fl be es (set_vus be n rp).1)
set_vus-run fl be n rp es accepted o =
    IsHeld-run fl be n n es (set_vus be n rp).1 o (set_vus_accepted be n rp accepted)

-- A round of the schedule is its decision, and then the change of VUs, if there is any.
follow_schedule-decide_vus :
    (fl : Float64) (be : Backend) (sched : Schedule) (now : ℤ) (rp : RunProcess)
    → let (count, rp') = decide_vus be fl sched now rp in
      follow_schedule be fl sched now rp
      ≡ elim count as (λ x. RunProcess) [ none ↦ rp' | some n ↦ (apply_vus be n rp').1 ]
unfolding follow_schedule decide_vus
follow_schedule-decide_vus fl be sched now rp = ground arith

apply_vus-IsHeld :
    (be : Backend) (n m : ℤ) (rp : RunProcess)
    → (rp.manual_vus ≡ true) × (rp.target_vus ≡ n)
    → (apply_vus be m rp).0 ≡ none
    → IsHeld n m (apply_vus be m rp).1
apply_vus-IsHeld be n m rp h sent =
    ground (arith, (apply_vus_sent be m rp).0, apply_vus_frame be m rp)

-- A round of the schedule that is under way overtakes a VU change. Where the round decides on a count under
-- the lock, the user's change is accepted by k6 before the round sends that count, and k6 accepts this,
-- too, then k6 was sent the schedule's count last, while the run shows the user's count and mode; and it
-- stays so after any events but another VU change and the resumption of the schedule.
pub set_vus_overtaken :
    (fl : Float64) (be : Backend) (sched : Schedule) (now n count : ℤ) (rp : RunProcess)
    (es : List Event)
    → let decided = decide_vus be fl sched now rp in
      let changed = set_vus be n decided.1 in
      let sent = apply_vus be count changed.1 in
      decided.0 ≡ some count
      → changed.0 ≡ none
      → sent.0 ≡ none
      → All IsOther es
      → IsHeld n count (run fl be es sent.1)
set_vus_overtaken fl be sched now n count rp es decided accepted sent o =
    let rp' = (decide_vus be fl sched now rp).1 in
    let (manual, target, last) = set_vus_accepted be n rp' accepted in
    IsHeld-run fl be n count es (apply_vus be count (set_vus be n rp').1).1 o
      (apply_vus-IsHeld be n count (set_vus be n rp').1 (manual, target) sent)
