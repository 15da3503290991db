-- ===== src/Runs/Start.antt =====
-- apps/control-plane/internal/handlers/runs.go: Start and finishRun, from the request to the run in the
-- engine and its row in the database. The stores of plans and environments, the compiler and the
-- launch of k6 are the argument `Services`; broadcasts and notifications are left out.
pub mod Spec
pub mod Outcome
use open_synapse.Prelude.{
  ℕ, String, ◌≡◌, ◌⊎◌, inl, inr, Bool, true, false, not, ◌&&◌, ◌||◌, Option, none, some, List, [],
  ◌∷◌, ◌++◌, map, if◌then◌else◌, ltb, length, ◌==◌,
}
use open_synapse.Prelude.Int.{ℤ, pos, ◌-ℤ◌, ltb_ℤ, leb_ℤ, quot, scale}
use open_synapse.Prelude.Assoc.{Map, lookup, insert, string_eq}
use Prim.Native.String.{◌++◌ as concat}
use text.Mathlib.Text.{◌==◌ as str_eq}
use open_synapse.Float64.{Float64}
use open_synapse.Engine.Schedule.{Schedule}
use open_synapse.Engine.Process.{RunSpec}
use open_synapse.Engine.Registry.{Engine, execution, start_run}
use open_synapse.Compiler.Profiles.{Profile, ProfileStage, peak_of}
use open_synapse.Runs.Parameters.{RunStage, RunParameters, ParameterError, validate_parameters}
use open_synapse.Runs.Store.{Run, RunStore, update_status}

-- startRunRequest
pub record StartRequest : Type 0 where
  pub plan_id : String
  pub environment_id : Option String
  pub parameters : Option RunParameters

-- what Start reads of a plan
pub record Plan : Type 0 where
  pub id : String
  pub default_environment_id : Option String

-- what a store's Get returns: an error, nothing, or a value
pub data Lookup (A : Type 0) : Type 0 where
  broken missing : Lookup A
  found : A → Lookup A

-- Result of the compiler, less the script
pub record Compiled : Type 0 where
  pub profile : Option Profile
  pub max_vus : ℤ
  pub planned_duration : ℤ
  pub max_duration : ℤ
  pub control : Bool

-- RunHandlers: the engine, if there is one, and the runs
pub record Server : Type 0 where
  pub engine : Option Engine
  pub runs : RunStore

-- What Start calls. `envs` is none where there is no store of environments. `create` is the new run's
-- id, or none where the insertion fails; `launch` is the error of the backend that StartRun starts.
-- `stores_status` and `stores_event` say whether the database takes a status and an event, whose errors
-- Start ignores, and `meanwhile` is what other goroutines do between the return of StartRun and the
-- update of the row, such as the end of the run with finishRun.
pub record Services : Type 0 where
  pub plans : String → Lookup Plan
  pub envs : Option (String → Lookup String)
  pub parse : String → Option ℤ
  pub print_duration : ℤ → String
  pub compile : Plan → RunParameters → Option Compiled
  pub create : Plan → RunParameters → Option String
  pub launch : RunSpec → Option String
  pub stores_status : String → Bool
  pub stores_event : String → Bool
  pub meanwhile : String → Server → Server
  pub control_base_url : String
  pub token : String
  pub now : ℤ

-- the answers of Start
pub data StartReply : Type 0 where
  no_engine bad_json plan_required internal_error plan_not_found : StartReply
  too_many_workers environment_not_found compilation_failed engine_error : StartReply
  invalid_parameters : ParameterError → StartReply
  created : String → StartReply

-- the parameters of a request: all zero where there are none, but for one worker
unfoldable pub requested_parameters : Option RunParameters → RunParameters
requested_parameters none = record {
  vus_target = pos 0;
  rps_target = pos 0;
  duration_seconds = pos 0;
  stages = [];
  worker_count = pos 1;
}
requested_parameters (some p) =
    if leb_ℤ p.worker_count (pos 0) then record p { worker_count = pos 1 } else p

-- the environment: the one of the request, else the plan's, "" for none
unfoldable pub environment_of : StartRequest → Plan → String
environment_of req plan = elim req.environment_id [
  | some id ↦ id
  | none ↦ elim plan.default_environment_id [ none ↦ "" | some id ↦ id ]
]

-- how the lookup of the environment ends, if it ends the request
unfoldable pub environment_error : Services → String → Option StartReply
environment_error sv id = if str_eq id "" then none else elim sv.envs [
  | none ↦ none
  | some get ↦ elim (get id) [
    | broken ↦ some internal_error
    | missing ↦ some environment_not_found
    | found env ↦ none
  ]
]

-- engine.Schedule from compiler.Profile
unfoldable pub schedule_of : Profile → Schedule
schedule_of prof = record {
  start_vus = prof.start_vus;
  stages = map (λ s. record { duration = s.duration; target = s.target }) prof.stages;
}

-- compiled.PlannedDuration.Seconds(), as an int
unfoldable pub whole_seconds : Float64 → ℤ → ℤ
whole_seconds fl d =
    let secs = quot d 1000000000 in
    let rest = d -ℤ scale secs 1000000000 in
    fl.truncate (fl.add (fl.of_int secs) (fl.div (fl.of_int rest) (fl.of_int (pos 1000000000))))

-- the parameters that are recorded: what will actually run
unfoldable pub recorded_parameters : Float64 → Services → Compiled → RunParameters → RunParameters
recorded_parameters fl sv c p = elim c.profile [
  | none ↦ p
  | some prof ↦ record p {
    vus_target = peak_of prof;
    duration_seconds = whole_seconds fl c.planned_duration;
    stages =
        if length p.stages == 0 && ltb 1 (length prof.stages)
        then map (λ s. record { duration = sv.print_duration s.duration; target = s.target })
            prof.stages
        else p.stages;
  }
]

-- the RunSpec
unfoldable pub spec_of : Services → String → RunParameters → Compiled → RunSpec
spec_of sv id p c = record {
  instances = p.worker_count;
  schedule = elim c.profile [ none ↦ none | some prof ↦ some (schedule_of prof) ];
  max_vus = c.max_vus;
  planned_duration = c.planned_duration;
  max_duration = c.max_duration;
  rps_target = p.rps_target;
  control_url =
      if c.control
      then concat sv.control_base_url (concat "/api/v1/runs/" (concat id "/control-state"))
      else "";
  control_token = sv.token;
}

-- addEvent, of a stored event its run and type
unfoldable pub add_event : String → String → RunStore → RunStore
add_event id kind s = record s { events = s.events ++ (id, kind) ∷ [] }

-- runs.Create: the new row
unfoldable pub create_run : String → RunStore → RunStore
create_run id s = record s {
  runs = insert id (record { status = "queued"; started_at = none; ended_at = none }) s.runs;
}

module _ (fl : Float64) (sv : Services) where
  -- UpdateStatus and addEvent, as Start calls them
  unfoldable pub try_status : String → String → RunStore → RunStore
  try_status id status runs =
      if sv.stores_status status then update_status sv.now id status runs else runs

  unfoldable pub try_event : String → String → RunStore → RunStore
  try_event id kind runs = if sv.stores_event kind then add_event id kind runs else runs

  -- from the run's row to its start in the engine
  unfoldable pub start_created :
      Engine → String → RunParameters → Compiled → RunStore → StartReply × Server
  start_created e id p c runs =
      let queued = create_run id runs in
      let spec = spec_of sv id p c in
      let (err, e') = start_run fl id spec (sv.launch spec) e in
      elim err [
        | some failed ↦ (
          engine_error,
          record { engine = some e'; runs = try_event id "error" (try_status id "failed" queued) },
        )
        | none ↦
            let later = sv.meanwhile id (record { engine = some e'; runs = queued }) in
            (
              created id,
              record {
                engine = later.engine;
                runs = try_event id "start" (try_status id "running" later.runs);
              },
            )
      ]

  -- from the compiled plan on
  unfoldable pub start_compiled :
      Engine → Plan → RunParameters → Compiled → RunStore → StartReply × Server
  start_compiled e plan p c runs =
      let recorded = recorded_parameters fl sv c p in
      elim (sv.create plan recorded) [
        | none ↦ (internal_error, record { engine = some e; runs = runs })
        | some id ↦ start_created e id recorded c runs
      ]

  -- from the plan on
  unfoldable pub start_plan : Engine → StartRequest → Plan → RunStore → StartReply × Server
  start_plan e req plan runs =
      let same : Server = record { engine = some e; runs = runs } in
      let p = requested_parameters req.parameters in
      elim (validate_parameters sv.parse p) [
        | some bad ↦ (invalid_parameters bad, same)
        | none ↦
            if ltb_ℤ (execution e).1 p.worker_count
            then (too_many_workers, same)
            else elim (environment_error sv (environment_of req plan)) [
              | some refused ↦ (refused, same)
              | none ↦ elim (sv.compile plan p) [
                | none ↦ (compilation_failed, same)
                | some c ↦ start_compiled e plan p c runs
              ]
            ]
      ]

  -- Start; a request that is not valid JSON is none
  unfoldable pub start : Option StartRequest → Server → StartReply × Server
  start request s = elim s.engine [
    | none ↦ (no_engine, s)
    | some e ↦ elim request [
      | none ↦ (bad_json, s)
      | some req ↦
          if str_eq req.plan_id "" then (plan_required, s) else elim (sv.plans req.plan_id) [
            | broken ↦ (internal_error, s)
            | missing ↦ (plan_not_found, s)
            | found plan ↦ start_plan e req plan s.runs
          ]
    ]
  ]
