-- ===== src/Engine/Aggregator.antt =====
-- apps/control-plane/internal/engine/aggregator.go: what one run's samples are folded into. Counters
-- are numbers: an `int64` overflow would take 2 ^ 63 samples. Instants are nanoseconds since the
-- Unix epoch, and each method is one atomic action, as its lock makes it.
pub mod Samples
pub mod Batches
pub mod Balance
pub mod Limits
pub mod Bounds
pub mod Watermark
pub mod Streams
pub mod Conservation
pub mod Emission
use open_synapse.Engine.Instances.{zero_time, VuGauge}
use open_synapse.Engine.Errors.{ErrorLog}
use open_synapse.Prelude.{
  ℕ, zero, suc, ◌+◌, ◌-◌, ◌*◌, ◌/◌, ◌%◌, ◌^◌, ◌≤◌, ◌<◌, String, eq_iff, ◌≡◌, refl, sym, ap, ◌∙◌,
  ◌≢◌, ◌↔◌, ◌⊎◌, inl, inr, Bool, true, false, not, ◌&&◌, ◌||◌, Option, none, some, List, [], ◌∷◌,
  ◌++◌, map, arith, ltb, leb, ◌==◌, if◌then◌else◌, Bool-cases, Option-cases, length, take, drop,
  length-append, length-drop, All, Any, All-map, All-Any,
}
use open_synapse.Prelude.Int.{
  ℤ, pos, negsuc, pos_part, neg_part, ◌+ℤ◌, ◌-ℤ◌, ◌≤ℤ◌, ◌<ℤ◌, ltb_ℤ, leb_ℤ, eqb_ℤ, max_ℤ, quot,
  wrap64, scale, InInt64, int_laws, +ℤ_parts, -ℤ_parts, one_part, eq_of_parts, wrap64_id,
}
use open_synapse.Prelude.Assoc.{
  Eq, string_eq, int_eq, Map, lookup, insert, remove, Unique, sum_by, weigh, lookup-insert,
  lookup-remove, Unique-insert, Unique-remove, sum_by-insert, sum_by-remove, length-remove,
  length-insert,
}
use Prim.Native.String.{◌++◌ as concat}
use text.Mathlib.Text.{◌==◌ as str_eq}
use open_synapse.Float64.{Float64}
use open_synapse.Engine.Histogram.{Histogram, new_histogram, observe}

-- ControlScenario
abbrev pub control_scenario : String
control_scenario = "__opensynapse_control"

-- maxBucketSamples, maxEndpoints and maxErrorSamples
abbrev pub max_bucket_samples : ℕ
max_bucket_samples = 20000

abbrev pub max_endpoints : ℕ
max_endpoints = 200

-- tags[k], "" where it is missing
unfoldable pub tag : String → Map String String → String
tag k tags = elim (lookup k tags) [ none ↦ "" | some v ↦ v ]

-- checkAgg
pub record CheckAgg : Type 0 where
  pub name : String
  pub group : String
  pub passes : ℕ
  pub fails : ℕ

-- the method and the name of endpointKey
unfoldable pub endpoint_name : Map String String → String
endpoint_name tags = let n = tag "name" tags in if str_eq n "" then tag "url" tags else n

-- the key of an endpoint
unfoldable pub endpoint_key : String → String → String
endpoint_key method name = concat method (concat " " name)

-- the key of a check
unfoldable pub check_key : String → String → String
check_key group name = concat group (concat "\0" name)

module _ (fl : Float64) where
  open fl use {F, of_int, add, lt, truncate}

  -- secondBucket
  pub record Bucket : Type 0 where
    pub requests : ℕ
    pub failed : ℕ
    pub iterations : ℕ
    pub checks_passed : ℕ
    pub checks_failed : ℕ
    pub bytes_sent : F
    pub bytes_recv : F
    pub durations : List F
    pub seen : ℕ
    pub hist : Option (Histogram fl)
    pub vus : ℤ
    pub has_vus : Bool

  unfoldable pub empty_bucket : Bucket
  empty_bucket = record {
    requests = 0;
    failed = 0;
    iterations = 0;
    checks_passed = 0;
    checks_failed = 0;
    bytes_sent = of_int (pos 0);
    bytes_recv = of_int (pos 0);
    durations = [];
    seen = 0;
    hist = none;
    vus = pos 0;
    has_vus = false;
  }

  -- endpointAgg
  pub record EndpointAgg : Type 0 where
    pub method : String
    pub name : String
    pub failed : ℕ
    pub hist : Histogram fl

  -- aggregator, its totals
  pub record Totals : Type 0 where
    pub total : Histogram fl
    pub requests : ℕ
    pub failed : ℕ
    pub iterations : ℕ
    pub checks_pass : ℕ
    pub checks_fail : ℕ
    pub bytes_sent : F
    pub bytes_recv : F
    pub first_ts : ℤ
    pub last_ts : ℤ

  -- aggregator
  pub record Aggregator : Type 0 where
    pub buckets : Map ℤ Bucket
    pub last_emitted : ℤ
    pub totals : Totals
    pub endpoints : Map String EndpointAgg
    pub checks : Map String CheckAgg
    pub log : ErrorLog
    pub gauge : VuGauge
    pub latest : Map String ℤ

  -- newAggregator
  unfoldable pub new_aggregator : ℤ → Aggregator
  new_aggregator vu_offset = record {
    buckets = [];
    last_emitted = pos 0;
    totals = record {
      total = new_histogram fl;
      requests = 0;
      failed = 0;
      iterations = 0;
      checks_pass = 0;
      checks_fail = 0;
      bytes_sent = of_int (pos 0);
      bytes_recv = of_int (pos 0);
      first_ts = zero_time;
      last_ts = zero_time;
    };
    endpoints = [];
    checks = [];
    log = record { errors = []; errors_total = 0; new_errors = [] };
    gauge = record {
      current_vus = pos 0;
      peak_vus = pos 0;
      instance_vus = [];
      vu_offset = vu_offset;
    };
    latest = [];
  }

  -- bucket(sec), which is created where it is missing
  unfoldable pub bucket : ℤ → Map ℤ Bucket → Bucket
  bucket sec m = elim (lookup sec m) [ none ↦ empty_bucket | some b ↦ b ]

  -- a write through the pointer that bucket(sec) returns
  unfoldable pub at_bucket : ℤ → (Bucket → Bucket) → Map ℤ Bucket → Map ℤ Bucket
  at_bucket sec f m = insert sec (f (bucket sec m)) m

  unfoldable pub fresh_endpoint : String → String → EndpointAgg
  fresh_endpoint method name = record {
    method = method;
    name = name;
    failed = 0;
    hist = new_histogram fl;
  }

  -- endpoint(tags), and a write through the pointer that it returns
  unfoldable pub at_endpoint :
      String
      → String
      → (EndpointAgg → EndpointAgg)
      → Map String EndpointAgg
      → Map String EndpointAgg
  at_endpoint method name f m =
      let key = endpoint_key method name in
      elim (lookup key m) [
        | some e ↦ insert key (f e) m
        | none ↦
            if leb max_endpoints (length m)
            then elim (lookup "(other)" m) [
              | some e ↦ insert "(other)" (f e) m
              | none ↦ insert "(other)" (f (fresh_endpoint "" "(other)")) m
            ]
            else insert key (f (fresh_endpoint method name)) m
      ]

  -- check(tags), and a write through the pointer that it returns
  unfoldable pub at_check :
      String → String → (CheckAgg → CheckAgg) → Map String CheckAgg → Map String CheckAgg
  at_check group name f m =
      let key = check_key group name in
      elim (lookup key m) [
        | some c ↦ insert key (f c) m
        | none ↦ insert key (f (record { name = name; group = group; passes = 0; fails = 0 })) m
      ]
