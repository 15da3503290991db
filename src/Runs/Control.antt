-- ===== src/Runs/Control.antt =====
-- apps/control-plane/internal/handlers/runs.go: Control, Stop and Kill, which change a live run and
-- record the events of the run. A request body that is not valid JSON is `none`; the VU count of the
-- run, and the time, which the engine reads, are arguments.
pub mod Changes
use open_synapse.Prelude.{
  ℕ, ◌+◌, ◌*◌, ◌^◌, ◌≤◌, ◌<◌, String, eq_iff, ◌≡◌, refl, ◌≢◌, ◌↔◌, ◌⊎◌, inl, inr, Bool, true, false,
  not, ◌&&◌, ◌||◌, Option, none, some, List, [], ◌∷◌, ◌++◌, map, arith, ltb, leb, if◌then◌else◌,
  Bool-cases, Option-cases, All, Any, length,
}
use open_synapse.Prelude.Int.{
  ℤ, pos, negsuc, pos_part, neg_part, ◌+ℤ◌, ◌≤ℤ◌, ◌<ℤ◌, ltb_ℤ, leb_ℤ, wrap64, scale, InInt64,
  wrap64_id, int_laws, +ℤ_parts,
}
use open_synapse.Prelude.Assoc.{Eq, string_eq, Map, lookup, insert, lookup-insert}
use open_synapse.Engine.Process.{EngineError, not_active, unsupported, Action, Backend, RunProcess}
use open_synapse.Engine.Process.Control.{
  set_vus, set_paused, set_duration, kill_run, resume_schedule as continue_schedule, set_rps,
  LiveState, live_state,
}
use open_synapse.Engine.Registry.{Engine, is_running, with_run, with_run-other, state_of, stop_run}
use text.Mathlib.Text.{◌==◌ as str_eq}

-- controlRequest
pub record ControlRequest : Type 0 where
  pub vus : Option ℤ
  pub rps : Option ℤ
  pub duration_seconds : Option ℤ
  pub paused : Option Bool
  pub resume_schedule : Bool

-- one change of a request
pub data Change : Type 0 where
  to_paused : Bool → Change
  to_vus : ℤ → Change
  to_schedule : Change
  to_rps : ℤ → Change
  to_duration : ℤ → Change

-- an event of the runs API, as the payloads of addEvent distinguish them
pub data RunEvent : Type 0 where
  pause resume schedule_resumed stop_requested kill : RunEvent
  vu_change rps_change duration_change : ℤ → RunEvent

-- the answers of the three handlers
pub data Reply : Type 0 where
  engine_not_available invalid_json run_not_active control_unsupported accepted : Reply
  control_rejected : EngineError → Reply
  live : LiveState → Reply

-- what the handlers change: the engine, if there is one, and the events, of all runs
pub record RunHandlers : Type 0 where
  pub engine : Option Engine
  pub events : List (String × RunEvent)

-- the changes that a request asks for, in the handler's order
unfoldable pub if_some : {A : Type 0} → (A → Change) → Option A → List Change
if_some f none = []
if_some f (some a) = f a ∷ []

unfoldable pub requested : ControlRequest → List Change
requested req =
    if_some to_paused req.paused
    ++ if_some to_vus req.vus
    ++ (if req.resume_schedule then to_schedule ∷ [] else [])
    ++ if_some to_rps req.rps
    ++ if_some to_duration req.duration_seconds

-- the event of a change
unfoldable pub event_of : Change → RunEvent
event_of (to_paused true) = pause
event_of (to_paused false) = resume
event_of (to_vus n) = vu_change n
event_of to_schedule = schedule_resumed
event_of (to_rps n) = rps_change n
event_of (to_duration n) = duration_change n

-- `fail`
unfoldable pub reply_to : EngineError → Reply
reply_to not_active = run_not_active
reply_to unsupported = control_unsupported
reply_to e = control_rejected e

module _ (be : Backend) (now : ℤ) where
  -- the engine's method for a change
  unfoldable pub action_of : Change → Action
  action_of (to_paused b) = set_paused be now b
  action_of (to_vus n) = set_vus be n
  action_of to_schedule = continue_schedule
  action_of (to_rps n) = set_rps n
  action_of (to_duration n) = set_duration be now n

  -- the changes in turn, up to the first one that is refused; an event for each that was applied
  unfoldable pub apply_changes :
      String → List Change → Engine → Option EngineError × Engine × List (String × RunEvent)
  apply_changes id [] e = (none, e, [])
  apply_changes id (c ∷ cs) e =
      let (err, e') = with_run id (action_of c) e in
      let (err', e'', events) = apply_changes id cs e' in
      elim err [
        | none ↦ (err', e'', (id, event_of c) ∷ events)
        | some failed ↦ (some failed, e', [])
      ]

  -- Control
  unfoldable pub control : ℤ → String → Option ControlRequest → RunHandlers → Reply × RunHandlers
  control vus id body h = elim h.engine [
    | none ↦ (engine_not_available, h)
    | some e ↦ elim body [
      | none ↦ (invalid_json, h)
      | some req ↦
          let (err, e', events) = apply_changes id (requested req) e in
          let h' : RunHandlers = record { engine = some e'; events = h.events ++ events } in
          let reply : Reply = elim err [
            | some failed ↦ reply_to failed
            | none ↦ elim (state_of id vus now e') [ none ↦ run_not_active | some st ↦ live st ]
          ] in
          if is_running id e then (reply, h') else (run_not_active, h)
    ]
  ]

  -- Stop and Kill; `act` is the engine's method and `event` what is recorded
  unfoldable pub end_run :
      (Engine → Option EngineError × Engine) → RunEvent → String → RunHandlers → Reply × RunHandlers
  end_run act event id h = elim h.engine [
    | none ↦ (engine_not_available, h)
    | some e ↦
        let (err, e') = act e in
        elim err [
          | none ↦ (accepted, record { engine = some e'; events = h.events ++ (id, event) ∷ [] })
          | some _ ↦ (run_not_active, record h { engine = some e' })
        ]
  ]

  unfoldable pub stop_handler : String → RunHandlers → Reply × RunHandlers
  stop_handler id = end_run (stop_run be id) stop_requested id

  unfoldable pub kill_handler : String → RunHandlers → Reply × RunHandlers
  kill_handler id = end_run (with_run id (kill_run be)) kill id
