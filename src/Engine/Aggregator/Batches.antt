-- ===== src/Engine/Aggregator/Batches.antt =====
-- apps/control-plane/internal/engine/ingest.go: the batches that cluster workers report, and how one
-- is folded into the run's aggregates. A worker's counts are numbers.
use open_synapse.Engine.Instances.{advance}
use open_synapse.Engine.Errors.{RunError, record_error}
use open_synapse.Prelude.{
  ℕ, ◌+◌, String, Bool, Option, none, some, List, [], ◌∷◌, ◌==◌, if◌then◌else◌,
}
use open_synapse.Prelude.Int.{ℤ, pos, ◌+ℤ◌, scale}
use open_synapse.Prelude.Assoc.{string_eq, int_eq, Map, remove}
use open_synapse.Float64.{Float64, fmin, fmax}
use open_synapse.Engine.Histogram.{Histogram, new_histogram, bump}
use open_synapse.Engine.Aggregator.{
  CheckAgg, Bucket, EndpointAgg, Totals, Aggregator, at_bucket, at_endpoint, at_check, ErrorLog,
}
use open_synapse.Engine.Aggregator.Samples.{stamp, add_vus}

-- IngestHist
pub record IngestHist (fl : Float64) : Type 0 where
  pub buckets : Map ℤ ℕ
  pub count : ℕ
  pub sum : fl.F
  pub min : fl.F
  pub max : fl.F

-- IngestSecond
pub record IngestSecond (fl : Float64) : Type 0 where
  pub second : ℤ
  pub requests : ℕ
  pub failed : ℕ
  pub iterations : ℕ
  pub checks_passed : ℕ
  pub checks_failed : ℕ
  pub bytes_sent : fl.F
  pub bytes_received : fl.F
  pub vus : Option ℤ
  pub durations : Option (IngestHist fl)

-- IngestEndpoint
pub record IngestEndpoint (fl : Float64) : Type 0 where
  pub method : String
  pub name : String
  pub failed : ℕ
  pub durations : Option (IngestHist fl)

-- IngestCheck
pub record IngestCheck : Type 0 where
  pub group : String
  pub name : String
  pub passes : ℕ
  pub fails : ℕ

-- IngestBatch
pub record IngestBatch (fl : Float64) : Type 0 where
  pub sender : String
  pub through : ℤ
  pub seconds : List (IngestSecond fl)
  pub endpoints : List (IngestEndpoint fl)
  pub checks : List IngestCheck
  pub errors : List RunError
  pub final : Bool

module _ (fl : Float64) where
  open fl use {F, of_int, add}

  -- the loop of mergeInto
  unfoldable pub bump_all : Map ℤ ℕ → Map ℤ ℕ → Map ℤ ℕ
  bump_all [] m = m
  bump_all ((k, n) ∷ more) m = bump_all more (bump fl k n m)

  -- mergeInto
  unfoldable pub merge_into : Option (IngestHist fl) → Histogram fl → Histogram fl
  merge_into none h = h
  merge_into (some new) h = if new.count == 0 then h else record {
    buckets = bump_all new.buckets h.buckets;
    count = h.count + new.count;
    sum = add h.sum new.sum;
    min = fmin fl h.min new.min;
    max = fmax fl h.max new.max;
  }

  -- the histogram of a second, which is created where durations arrive
  unfoldable pub merge_hist : Option (IngestHist fl) → Option (Histogram fl) → Option (Histogram fl)
  merge_hist none h = h
  merge_hist (some new) none = some (merge_into (some new) (new_histogram fl))
  merge_hist (some new) (some h) = some (merge_into (some new) h)

  -- the writes of `merge` to a second's bucket, less its VUs
  unfoldable pub merge_bucket : IngestSecond fl → Bucket fl → Bucket fl
  merge_bucket s b = record b {
    requests = b.requests + s.requests;
    failed = b.failed + s.failed;
    iterations = b.iterations + s.iterations;
    checks_passed = b.checks_passed + s.checks_passed;
    checks_failed = b.checks_failed + s.checks_failed;
    bytes_sent = add b.bytes_sent s.bytes_sent;
    bytes_recv = add b.bytes_recv s.bytes_received;
    hist = merge_hist s.durations b.hist;
  }

  -- the writes of `merge` to the totals
  unfoldable pub merge_totals : IngestSecond fl → Totals fl → Totals fl
  merge_totals s t = record t {
    requests = t.requests + s.requests;
    failed = t.failed + s.failed;
    iterations = t.iterations + s.iterations;
    checks_pass = t.checks_pass + s.checks_passed;
    checks_fail = t.checks_fail + s.checks_failed;
    bytes_sent = add t.bytes_sent s.bytes_sent;
    bytes_recv = add t.bytes_recv s.bytes_received;
    total = merge_into s.durations t.total;
  }

  -- one round of the loop of `merge` over the seconds
  unfoldable pub merge_second : String → IngestSecond fl → Aggregator fl → Aggregator fl
  merge_second inst s a =
      let at = scale s.second 1000000000 in
      let counted = record a {
        totals = merge_totals s (stamp fl at (at +ℤ pos 1000000000) a.totals);
        buckets = at_bucket fl s.second (merge_bucket s) a.buckets;
      } in
      elim s.vus [ none ↦ counted | some n ↦ add_vus fl inst s.second n counted ]

  unfoldable pub merge_seconds : String → List (IngestSecond fl) → Aggregator fl → Aggregator fl
  merge_seconds inst [] a = a
  merge_seconds inst (s ∷ ss) a = merge_seconds inst ss (merge_second inst s a)

  unfoldable pub merge_endpoints :
      List (IngestEndpoint fl) → Map String (EndpointAgg fl) → Map String (EndpointAgg fl)
  merge_endpoints [] m = m
  merge_endpoints (x ∷ xs) m = merge_endpoints xs (
      at_endpoint fl x.method x.name
        (λ e. record e { failed = e.failed + x.failed; hist = merge_into x.durations e.hist }) m)

  unfoldable pub merge_checks : List IngestCheck → Map String CheckAgg → Map String CheckAgg
  merge_checks [] m = m
  merge_checks (x ∷ xs) m = merge_checks xs (
      at_check fl x.group x.name
        (λ c. record c { passes = c.passes + x.passes; fails = c.fails + x.fails }) m)

  unfoldable pub merge_errors : List RunError → ErrorLog → ErrorLog
  merge_errors [] log = log
  merge_errors (e ∷ es) log = merge_errors es (record_error e log)

  -- merge
  unfoldable pub merge : IngestBatch fl → Aggregator fl → Aggregator fl
  merge b a =
      let counted = merge_seconds b.sender b.seconds a in
      record counted {
        endpoints = merge_endpoints b.endpoints counted.endpoints;
        checks = merge_checks b.checks counted.checks;
        log = merge_errors b.errors counted.log;
        latest =
            if b.final
            then remove b.sender counted.latest
            else advance b.sender b.through counted.latest;
      }
