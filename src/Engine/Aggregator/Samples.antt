-- ===== src/Engine/Aggregator/Samples.antt =====
-- How samples reach the aggregator: line by line from a local k6 (aggregator.go, `ingest`), or as a
-- worker's batch of counts (ingest.go, `merge`).
use open_synapse.Engine.Errors.{RunError, record_error}
use open_synapse.Engine.Instances.{zero_time, set_instance_vus, unix, advance, unix_milli}
use open_synapse.Prelude.{
  ℕ, zero, suc, ◌+◌, String, Bool, true, false, not, ◌||◌, Option, none, some, List, [], ◌∷◌, ◌++◌,
  ltb, if◌then◌else◌, length,
}
use open_synapse.Prelude.Int.{ℤ, pos, ltb_ℤ, eqb_ℤ}
use open_synapse.Prelude.Assoc.{string_eq, int_eq, Map}
use text.Mathlib.Text.{◌==◌ as str_eq}
use open_synapse.Float64.{Float64}
use open_synapse.Engine.Histogram.{observe}
use open_synapse.Engine.Aggregator.{
  control_scenario, max_bucket_samples, tag, endpoint_name, Bucket, Totals, Aggregator, at_bucket,
  at_endpoint, at_check,
}

-- k6Line, a line that parsed
pub record Sample (fl : Float64) : Type 0 where
  pub kind : String
  pub metric : String
  pub time : ℤ
  pub value : fl.F
  pub tags : Map String String

module _ (fl : Float64) where
  open fl use {F, of_int, add, lt, truncate}

  -- firstTS and lastTS
  unfoldable pub stamp : ℤ → ℤ → Totals fl → Totals fl
  stamp from until t = record t {
    first_ts = if eqb_ℤ t.first_ts zero_time || ltb_ℤ from t.first_ts then from else t.first_ts;
    last_ts = if ltb_ℤ t.last_ts until then until else t.last_ts;
  }

  -- a write at a position
  abbrev pub set_at : List F → ℕ → F → List F
  set_at [] i v = []
  set_at (x ∷ xs) zero v = v ∷ xs
  set_at (x ∷ xs) (suc i) v = x ∷ set_at xs i v

  -- the reservoir of a second's durations; `j` is what rand.Int64N(b.seen) returns
  unfoldable pub keep_duration : ℕ → F → Bucket fl → Bucket fl
  keep_duration j v b = record b {
    seen = b.seen + 1;
    durations =
        if ltb (length b.durations) max_bucket_samples
        then b.durations ++ v ∷ []
        else if ltb j max_bucket_samples
        then set_at b.durations j v
        else b.durations;
  }

  -- `v != 0`
  unfoldable pub is_nonzero : F → Bool
  is_nonzero v = lt v (of_int (pos 0)) || lt (of_int (pos 0)) v

  -- The error that recordError builds; `atoi` is strconv.Atoi, 0 where it fails.
  unfoldable pub error_of : (String → ℤ) → ℤ → Map String String → RunError
  error_of atoi ts tags = record {
    timestamp_ms = unix_milli ts;
    status = atoi (tag "status" tags);
    method = tag "method" tags;
    name = endpoint_name tags;
    url = tag "url" tags;
    error_code = tag "error_code" tags;
    message = tag "error" tags;
  }

  -- one case of the switch for each of these metrics
  unfoldable pub add_request : ℤ → Aggregator fl → Aggregator fl
  add_request sec a = record a {
    totals = record a.totals { requests = a.totals.requests + 1 };
    buckets = at_bucket fl sec (λ b. record b { requests = b.requests + 1 }) a.buckets;
  }

  unfoldable pub add_duration : ℕ → ℤ → F → Map String String → Aggregator fl → Aggregator fl
  add_duration j sec v tags a = record a {
    totals = record a.totals { total = observe fl v a.totals.total };
    buckets = at_bucket fl sec (keep_duration j v) a.buckets;
    endpoints =
        at_endpoint fl (tag "method" tags) (endpoint_name tags)
          (λ e. record e { hist = observe fl v e.hist }) a.endpoints;
  }

  unfoldable pub add_failure :
      (String → ℤ) → ℤ → ℤ → Map String String → Aggregator fl → Aggregator fl
  add_failure atoi ts sec tags a = record a {
    totals = record a.totals { failed = a.totals.failed + 1 };
    buckets = at_bucket fl sec (λ b. record b { failed = b.failed + 1 }) a.buckets;
    endpoints =
        at_endpoint fl (tag "method" tags) (endpoint_name tags)
          (λ e. record e { failed = e.failed + 1 }) a.endpoints;
    log = record_error (error_of atoi ts tags) a.log;
  }

  unfoldable pub add_iteration : ℤ → Aggregator fl → Aggregator fl
  add_iteration sec a = record a {
    totals = record a.totals { iterations = a.totals.iterations + 1 };
    buckets = at_bucket fl sec (λ b. record b { iterations = b.iterations + 1 }) a.buckets;
  }

  unfoldable pub add_check : ℤ → Bool → Map String String → Aggregator fl → Aggregator fl
  add_check sec passed tags a =
      let t = a.totals in
      if passed
      then record a {
        totals = record t { checks_pass = t.checks_pass + 1 };
        buckets =
            at_bucket fl sec (λ b. record b { checks_passed = b.checks_passed + 1 }) a.buckets;
        checks =
            at_check fl (tag "group" tags) (tag "check" tags)
              (λ c. record c { passes = c.passes + 1 }) a.checks;
      }
      else record a {
        totals = record t { checks_fail = t.checks_fail + 1 };
        buckets =
            at_bucket fl sec (λ b. record b { checks_failed = b.checks_failed + 1 }) a.buckets;
        checks =
            at_check fl (tag "group" tags) (tag "check" tags)
              (λ c. record c { fails = c.fails + 1 }) a.checks;
      }

  unfoldable pub add_sent : ℤ → F → Aggregator fl → Aggregator fl
  add_sent sec v a = record a {
    totals = record a.totals { bytes_sent = add a.totals.bytes_sent v };
    buckets = at_bucket fl sec (λ b. record b { bytes_sent = add b.bytes_sent v }) a.buckets;
  }

  unfoldable pub add_received : ℤ → F → Aggregator fl → Aggregator fl
  add_received sec v a = record a {
    totals = record a.totals { bytes_recv = add a.totals.bytes_recv v };
    buckets = at_bucket fl sec (λ b. record b { bytes_recv = add b.bytes_recv v }) a.buckets;
  }

  -- setInstanceVUs, with the write to the second's bucket
  unfoldable pub add_vus : String → ℤ → ℤ → Aggregator fl → Aggregator fl
  add_vus inst sec gauge a =
      let g = set_instance_vus inst gauge a.gauge in
      record a {
        gauge = g;
        buckets =
            at_bucket fl sec (λ b. record b { vus = g.current_vus; has_vus = true }) a.buckets;
      }

  -- the switch of `ingest` on the metric; `none` is its default
  unfoldable pub count_sample :
      (String → ℤ) → ℕ → String → Sample fl → Aggregator fl → Option (Aggregator fl)
  count_sample atoi j inst l a =
      let sec = unix l.time in
      if str_eq l.metric "http_reqs"
      then some (add_request sec a)
      else if str_eq l.metric "http_req_duration"
      then some (add_duration j sec l.value l.tags a)
      else if str_eq l.metric "http_req_failed"
      then some (if is_nonzero l.value then add_failure atoi l.time sec l.tags a else a)
      else if str_eq l.metric "iterations"
      then some (add_iteration sec a)
      else if str_eq l.metric "checks"
      then some (add_check sec (is_nonzero l.value) l.tags a)
      else if str_eq l.metric "data_sent"
      then some (add_sent sec l.value a)
      else if str_eq l.metric "data_received"
      then some (add_received sec l.value a)
      else if str_eq l.metric "vus"
      then some (add_vus inst sec (truncate l.value) a)
      else none

  -- ingest, of a line that parsed: the new state, and whether the line belongs in the archive
  unfoldable pub ingest :
      (String → ℤ) → ℕ → String → Sample fl → Aggregator fl → Aggregator fl × Bool
  ingest atoi j inst l a =
      let seen = record a { latest = advance inst l.time a.latest } in
      let stamped = record seen { totals = stamp l.time l.time a.totals } in
      if not (str_eq l.kind "Point")
      then (a, false)
      else if str_eq (tag "scenario" l.tags) control_scenario
      then (seen, false)
      else elim (count_sample atoi j inst l stamped) [
        | none ↦ (stamped, false)
        | some a' ↦ (a', true)
      ]
