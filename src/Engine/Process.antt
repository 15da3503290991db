-- ===== src/Engine/Process.antt =====
-- apps/control-plane/internal/engine/engine.go: the state of one run (`runProcess`) and the actions
-- that change it, each as one atomic action. Instants and durations are nanoseconds.
pub mod Deadline
pub mod Stop
pub mod Manual
pub mod Clock
pub mod Invariant
pub mod Events
pub mod Frames
pub mod Control
use mathlib.Core.Option
use open_synapse.Prelude.{
  ℕ, zero, suc, ◌+◌, ◌-◌, ◌*◌, ◌/◌, ◌%◌, ◌^◌, ◌≤◌, ◌<◌, String, eq_iff, ◌≡◌, refl, sym, ap, ◌∙◌,
  ◌≢◌, ◌↔◌, ◌⊎◌, inl, inr, Bool, true, false, not, ◌&&◌, ◌||◌, Option, none, some, List, [], ◌∷◌,
  ◌++◌, map, arith, ltb, leb, ◌==◌, if◌then◌else◌, Bool-cases, Option-cases, length, take, drop,
  length-append, length-drop, All, Any,
}
use open_synapse.Prelude.Int.{
  ℤ, pos, negsuc, pos_part, neg_part, ◌+ℤ◌, ◌-ℤ◌, ◌≤ℤ◌, ◌<ℤ◌, ltb_ℤ, leb_ℤ, eqb_ℤ, max_ℤ, quot,
  wrap64, scale, InInt64, int_laws, +ℤ_parts, -ℤ_parts, one_part, eq_of_parts, wrap64_id,
}
use open_synapse.Float64.{Float64}
use open_synapse.Engine.Schedule.{Schedule, target_at}

-- The errors that the engine returns. `k6` carries what an instance's REST API answered.
pub data EngineError : Type 0 where
  not_active unsupported negative_vus negative_rps bad_duration too_long : EngineError
  invalid_token needs_cluster too_many_workers not_started start_failed : EngineError
  k6 : String → EngineError

-- The attributes of a status change on an instance's REST API.
pub data Attr : Type 0 where
  vus_max : ℤ → Attr
  vus : ℤ → Attr
  stopped : Attr
  pause : Bool → Attr

-- What a run asked of its k6 instances, and the moments in which they may have come up or changed
-- without being asked.
pub data Call : Type 0 where
  moment : Call
  patch : String → Attr → Call
  interrupt_all : Call
  kill_all : Call

-- The `backend` interface and the HTTP client behind it. Each answer, and which instances there are, may
-- depend on every call made and every moment gone by before; an error is the message that the instance or the process gave.
pub record Backend : Type 0 where
  pub apis : List Call → List String
  pub respond : List Call → String → Attr → Option String
  pub interrupt : List Call → Option String
  pub kill : List Call → Option String

-- RunSpec, less what only the backend reads (script, environment, archive, ingest address).
pub record RunSpec : Type 0 where
  pub instances : ℤ
  pub schedule : Option Schedule
  pub max_vus : ℤ
  pub planned_duration : ℤ
  pub max_duration : ℤ
  pub rps_target : ℤ
  pub control_url : String
  pub control_token : String

-- runProcess, less its locks and channels; `calls` is what its backend was asked so far.
pub record RunProcess : Type 0 where
  pub spec : RunSpec
  pub started : Bool
  pub start : ℤ
  pub paused : Bool
  pub paused_at : ℤ
  pub paused_total : ℤ
  pub manual_vus : Bool
  pub target_vus : ℤ
  pub sent_vus : ℤ
  pub vus_max : ℤ
  pub rps_target : ℤ
  pub planned_end : ℤ
  pub stop_requested : Bool
  pub killed : Bool
  pub log_tail : List String
  pub calls : List Call

-- An action that may fail: what it changed before it failed stays changed.
abbrev pub Action : Type 0
Action = RunProcess → Option EngineError × RunProcess

abbrev pub continue : Option EngineError × RunProcess → Action → Option EngineError × RunProcess
continue (none, rp) k = k rp
continue (some e, rp) k = (some e, rp)

infixl 5 ◌>>◌
abbrev pub ◌>>◌ : Action → Action → Action
(m >> k) rp = continue (m rp) k

abbrev pub modify : (RunProcess → RunProcess) → Action
modify f rp = (none, f rp)

abbrev pub fail : EngineError → Action
fail e rp = (some e, rp)

-- markStarted
unfoldable pub mark_started : ℤ → RunProcess → RunProcess
mark_started now rp = if rp.started then rp else record rp { started = true; start = now }

-- addLog keeps the last 40 lines
unfoldable pub add_log : String → RunProcess → RunProcess
add_log line rp =
    let tail = rp.log_tail ++ line ∷ [] in
    record rp { log_tail = if ltb 40 (length tail) then drop (length tail - 40) tail else tail }

-- elapsed
unfoldable pub elapsed : RunProcess → ℤ → ℤ
elapsed rp now =
    let paused = if rp.paused then rp.paused_total +ℤ (now -ℤ rp.paused_at) else rp.paused_total in
    if rp.started then now -ℤ rp.start -ℤ paused else pos 0

-- the loop over `errs` in patchStatus
unfoldable pub first_error : List (Option String) → Option EngineError
first_error [] = none
first_error (none ∷ rest) = first_error rest
first_error (some msg ∷ rest) = some (k6 msg)

module _ (be : Backend) where
  -- the requests of one status change: every instance gets it, whatever the others answer
  unfoldable pub patch_all : List String → Attr → Action
  patch_all [] attr rp = (some not_started, rp)
  patch_all (api ∷ rest) attr rp = (
    first_error (map (λ a. be.respond rp.calls a attr) (api ∷ rest)),
    record rp { calls = rp.calls ++ map (λ a. patch a attr) (api ∷ rest) },
  )

  -- patchStatus
  unfoldable pub patch_status : Attr → Action
  patch_status attr rp = patch_all (be.apis rp.calls) attr rp

  -- the first half of applyVUs: raise vus-max if the count is above it
  unfoldable pub raise_vus_max : ℤ → Action
  raise_vus_max n rp =
      if ltb_ℤ rp.vus_max n
      then (patch_status (vus_max n) >> modify (λ rp. record rp { vus_max = n })) rp
      else (none, rp)

  -- applyVUs
  unfoldable pub apply_vus : ℤ → Action
  apply_vus n = raise_vus_max n >> patch_status (vus n) >> modify (λ rp. record rp { sent_vus = n })

  -- backend.kill, with the call kept
  unfoldable pub kill_backend : Action
  kill_backend rp =
      (Option.map k6 (be.kill rp.calls), record rp { calls = rp.calls ++ kill_all ∷ [] })

  -- the fallback of requestStop: interrupt, and kill if that fails
  unfoldable pub force_stop : Option EngineError → RunProcess → RunProcess
  force_stop none rp = rp
  force_stop (some e) rp =
      let rp' = record rp { calls = rp.calls ++ interrupt_all ∷ [] } in
      elim (be.interrupt rp.calls) [ none ↦ rp' | some msg ↦ (kill_backend rp').1 ]

  -- requestStop, up to the goroutine that waits for the grace period
  unfoldable pub request_stop : RunProcess → RunProcess
  request_stop rp =
      let (e, rp') = patch_status stopped (record rp { stop_requested = true }) in
      if rp.stop_requested then rp else force_stop e rp'

  -- what driveSchedule decides under the lock: the VU count to send, if any, and the run as it leaves it
  unfoldable pub decide_vus : Float64 → Schedule → ℤ → RunProcess → Option ℤ × RunProcess
  decide_vus fl sched now rp =
      let target = target_at fl sched (elapsed rp now) in
      let rp' = record rp { target_vus = target } in
      if not rp.started || rp.manual_vus || rp.paused || rp.stop_requested
      then (none, rp)
      else if eqb_ℤ target rp.sent_vus
      then (none, rp')
      else (some target, rp')

  -- driveSchedule, where there is a schedule; a failed change is logged
  unfoldable pub follow_schedule : Float64 → Schedule → ℤ → RunProcess → RunProcess
  follow_schedule fl sched now rp =
      let target = target_at fl sched (elapsed rp now) in
      let rp' = record rp { target_vus = target } in
      if not rp.started || rp.manual_vus || rp.paused || rp.stop_requested
      then rp
      else if eqb_ℤ target rp.sent_vus
      then rp'
      else (apply_vus target rp').1

  -- driveSchedule
  unfoldable pub drive_schedule : Float64 → ℤ → RunProcess → RunProcess
  drive_schedule fl now rp = elim rp.spec.schedule [
    | none ↦ rp
    | some sched ↦ follow_schedule fl sched now rp
  ]

  -- enforceDeadline
  unfoldable pub enforce_deadline : ℤ → RunProcess → RunProcess
  enforce_deadline now rp =
      if rp.started
        && ltb_ℤ (pos 0) rp.planned_end
        && not rp.stop_requested
        && leb_ℤ rp.planned_end (elapsed rp now)
      then request_stop rp
      else rp

  -- one round of `loop`, as far as it concerns the run's control
  unfoldable pub tick : Float64 → ℤ → RunProcess → RunProcess
  tick fl now rp = enforce_deadline now (drive_schedule fl now rp)
