-- ===== src/Examples/Start.antt =====
-- The theorems on the start of a run, at a concrete request.
use open_synapse.Prelude.{none, some, true, false, [], arith}
use open_synapse.Prelude.Int.{pos}
use open_synapse.Runs.Start.{Services, Server, StartRequest, Lookup, spec_of}
use open_synapse.Runs.Start.Spec.{spec_of-IsValidSpec, compiled_of}
use open_synapse.Engine.Process.Invariant.{IsValidSpec}
use open_synapse.Examples.Numbers.{whole_numbers}
use open_synapse.Examples.Engine.Values.{idle_engine, seconds}
use open_synapse.Examples.Compiler.{
  five_managed, five_users, five_users-emit, half_minutes, with_stage,
}

abbrev local_services : Services
local_services = record {
  plans = λ id. Lookup.found (record { id = id; default_environment_id = none });
  envs = none;
  parse = half_minutes;
  print_duration = λ d. "30s";
  compile = λ plan p. some (compiled_of false five_managed);
  create = λ plan p. some "r1";
  launch = λ spec. none;
  stores_status = λ status. true;
  stores_event = λ kind. true;
  meanwhile = λ id s. s;
  control_base_url = "http://127.0.0.1:8080";
  token = "t0k3n";
  now = seconds 100;
}

abbrev shop_request : StartRequest
shop_request = record { plan_id = "shop"; environment_id = none; parameters = none }

abbrev idle_server : Server
idle_server = record { engine = some idle_engine; runs = record { runs = []; events = [] } }

spec_of-IsValidSpec_example :
    IsValidSpec whole_numbers
      (spec_of local_services "r1" (with_stage "30s") (compiled_of false five_managed))
spec_of-IsValidSpec_example =
    spec_of-IsValidSpec whole_numbers local_services "r1" five_users none (with_stage "30s")
      five_managed false (pos 0) five_users-emit (omega arith)
      ((omega arith, ground arith), ((omega arith, ground arith), tt))
