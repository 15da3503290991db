-- ===== src/Examples/Engine/Values.antt =====
-- Inputs for runs of the engine model: a schedule, an instance's REST API, a run, and a stream of
-- samples. Times are in nanoseconds.
use open_synapse.Prelude.{true, false, none, some, List, [], ◌∷◌, ℕ, ◌*◌}
use open_synapse.Prelude.Int.{ℤ, pos}
use open_synapse.Engine.Schedule.{Schedule}
use open_synapse.Engine.Process.{Backend, RunSpec, RunProcess}
use open_synapse.Engine.Process.Control.{new_process}
use open_synapse.Engine.Process.Events.{Event, begin, change_pause, stop}
use open_synapse.Engine.Aggregator.Samples.{Sample}
use open_synapse.Engine.Aggregator.Streams.{Arrival, line, publish}
use open_synapse.Engine.Registry.{Engine}
use open_synapse.Examples.Numbers.{whole_numbers}

abbrev pub seconds : ℕ → ℤ
seconds n = pos (n * 1000000000)

-- up to 10 VUs in 10 s, there for 20 s, then down
abbrev pub ramp_up_down : Schedule
ramp_up_down = record {
  start_vus = pos 0;
  stages =
      record { duration = seconds 10; target = pos 10 }
      ∷ record { duration = seconds 20; target = pos 10 }
      ∷ record { duration = seconds 10; target = pos 2 }
      ∷ [];
}

-- two instances that accept every request
abbrev pub two_workers : Backend
two_workers = record {
  apis = λ calls. "http://10.0.0.1:6565" ∷ "http://10.0.0.2:6565" ∷ [];
  respond = λ calls api attr. none;
  interrupt = λ calls. none;
  kill = λ calls. none;
}

-- an instance that refuses every request
abbrev pub refusing : Backend
refusing = record {
  apis = λ calls. "http://127.0.0.1:6565" ∷ [];
  respond = λ calls api attr. some "500 Internal Server Error";
  interrupt = λ calls. none;
  kill = λ calls. none;
}

abbrev pub ramping : RunSpec
ramping = record {
  instances = pos 2;
  schedule = some ramp_up_down;
  max_vus = pos 10;
  planned_duration = seconds 40;
  max_duration = seconds 340;
  rps_target = pos 0;
  control_url = "http://127.0.0.1:8080";
  control_token = "t0k3n";
}

abbrev pub fresh_run : RunProcess
fresh_run = new_process whole_numbers ramping

-- started at 100 s, paused from 110 s to 115 s, stopped at 120 s
abbrev pub paused_once : List Event
paused_once =
    begin (seconds 100)
    ∷ change_pause (seconds 110) true
    ∷ change_pause (seconds 115) false
    ∷ stop
    ∷ []

abbrev pub idle_engine : Engine
idle_engine = record { max_workers = some (pos 4); active = [] }

abbrev pub busy_engine : Engine
busy_engine = record { max_workers = some (pos 4); active = ("r1", fresh_run) ∷ [] }

abbrev pub request_at : ℕ → Sample whole_numbers
request_at t = record {
  kind = "Point";
  metric = "http_reqs";
  time = seconds t;
  value = pos 1;
  tags = ("method", "GET") ∷ ("name", "/") ∷ [];
}

-- two requests, the publication of the first one's second, and a request that comes too late
abbrev pub late_request : List (Arrival whole_numbers)
late_request =
    line 0 "i1" (request_at 100)
    ∷ line 0 "i1" (request_at 103)
    ∷ publish (pos 101)
    ∷ line 0 "i2" (request_at 100)
    ∷ []
