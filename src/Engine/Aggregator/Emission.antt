-- ===== src/Engine/Aggregator/Emission.antt =====
-- apps/control-plane/internal/engine/aggregator.go: the per-second points of a run (`snapshots`), its
-- errors since the last call, and the end of an instance.
use open_synapse.Engine.Errors.{RunError}
use open_synapse.Engine.Instances.{unix, zero_time}
use open_synapse.Prelude.{
  ℕ, zero, suc, String, ◌&&◌, Option, none, some, List, [], ◌∷◌, ltb, ◌==◌, if◌then◌else◌, length,
}
use open_synapse.Prelude.Int.{ℤ, pos, pos_part, ◌+ℤ◌, ◌-ℤ◌, leb_ℤ, eqb_ℤ, scale}
use open_synapse.Prelude.Assoc.{string_eq, int_eq, Map, lookup, remove}
use open_synapse.Float64.{Float64}
use open_synapse.Engine.Histogram.{Sorting, percentile, exact_percentile}
use open_synapse.Engine.Aggregator.{Bucket, Aggregator}

-- db.MetricPoint; a percentile is absent where reading it would have panicked
pub record MetricPoint (fl : Float64) : Type 0 where
  pub timestamp_ms : ℤ
  pub active_vus : ℤ
  pub requests : ℕ
  pub failed : ℕ
  pub rps : fl.F
  pub error_rate : fl.F
  pub p50_ms : Option fl.F
  pub p90_ms : Option fl.F
  pub p95_ms : Option fl.F
  pub p99_ms : Option fl.F
  pub bytes_sent : ℤ
  pub bytes_received : ℤ
  pub iterations : ℕ
  pub checks_passed : ℕ
  pub checks_failed : ℕ

module _ (fl : Float64) (lib : Sorting fl) where
  open fl use {F, of_int, mul, div, decimal, truncate}

  -- the percentile of a second: of its samples, of its merged histogram, or 0
  unfoldable pub second_percentile : Bucket fl → F → Option F
  second_percentile b q =
      if length b.durations == 0
      then elim b.hist [ none ↦ some (of_int (pos 0)) | some h ↦ some (percentile fl lib h q) ]
      else exact_percentile fl (lib.sort_floats b.durations) q

  -- a percentage of a count
  unfoldable pub error_rate_of : ℕ → ℕ → F
  error_rate_of failed requests =
      if ltb 0 requests
      then mul (div (of_int (pos failed)) (of_int (pos requests))) (of_int (pos 100))
      else of_int (pos 0)

  -- pointFor, of a second with a bucket
  unfoldable pub point_of : ℤ → ℤ → Bucket fl → MetricPoint fl
  point_of current sec b = record {
    timestamp_ms = scale sec 1000;
    active_vus = if b.has_vus then b.vus else current;
    requests = b.requests;
    failed = b.failed;
    rps = of_int (pos b.requests);
    error_rate = error_rate_of b.failed b.requests;
    p50_ms = second_percentile b (decimal 50 2);
    p90_ms = second_percentile b (decimal 90 2);
    p95_ms = second_percentile b (decimal 95 2);
    p99_ms = second_percentile b (decimal 99 2);
    bytes_sent = truncate b.bytes_sent;
    bytes_received = truncate b.bytes_recv;
    iterations = b.iterations;
    checks_passed = b.checks_passed;
    checks_failed = b.checks_failed;
  }

  -- pointFor, of a second without a bucket
  unfoldable pub quiet_point : ℤ → ℤ → MetricPoint fl
  quiet_point current sec = record {
    timestamp_ms = scale sec 1000;
    active_vus = current;
    requests = 0;
    failed = 0;
    rps = of_int (pos 0);
    error_rate = of_int (pos 0);
    p50_ms = some (of_int (pos 0));
    p90_ms = some (of_int (pos 0));
    p95_ms = some (of_int (pos 0));
    p99_ms = some (of_int (pos 0));
    bytes_sent = pos 0;
    bytes_received = pos 0;
    iterations = 0;
    checks_passed = 0;
    checks_failed = 0;
  }

  -- pointFor
  unfoldable pub point_for : ℤ → Map ℤ (Bucket fl) → ℤ → MetricPoint fl
  point_for current buckets sec = elim (lookup sec buckets) [
    | none ↦ quiet_point current sec
    | some b ↦ point_of current sec b
  ]

  -- the loop of `snapshots`, for `n` seconds after `last`: the points and the buckets left
  unfoldable pub emit : ℕ → ℤ → ℤ → Map ℤ (Bucket fl) → List (MetricPoint fl) × Map ℤ (Bucket fl)
  emit zero current last m = ([], m)
  emit (suc n) current last m =
      let sec = last +ℤ pos 1 in
      let (points, left) = emit n current sec (remove sec m) in
      (point_for current m sec ∷ points, left)

  -- the buckets up to a second, and those after it
  unfoldable pub stale : ℤ → Map ℤ (Bucket fl) → Map ℤ (Bucket fl)
  stale last [] = []
  stale last ((k, b) ∷ m) = let rest = stale last m in if leb_ℤ k last then (k, b) ∷ rest else rest

  unfoldable pub fresh : ℤ → Map ℤ (Bucket fl) → Map ℤ (Bucket fl)
  fresh last [] = []
  fresh last ((k, b) ∷ m) = let rest = fresh last m in if leb_ℤ k last then rest else (k, b) ∷ rest

  -- the second before the first one that `snapshots` emits
  unfoldable pub emitted_before : Aggregator fl → ℤ
  emitted_before a =
      if eqb_ℤ a.last_emitted (pos 0) then unix a.totals.first_ts -ℤ pos 1 else a.last_emitted

  -- how many seconds it emits
  unfoldable pub rounds : Aggregator fl → ℤ → ℕ
  rounds a up_to = pos_part (up_to -ℤ emitted_before a)

  -- snapshots
  unfoldable pub snapshots : ℤ → Aggregator fl → List (MetricPoint fl) × Aggregator fl
  snapshots up_to a =
      let last = emitted_before a in
      let (points, left) = emit (rounds a up_to) a.gauge.current_vus last a.buckets in
      let last' = last +ℤ pos (rounds a up_to) in
      if eqb_ℤ a.last_emitted (pos 0) && eqb_ℤ a.totals.first_ts zero_time
      then ([], a)
      else (points, record a { last_emitted = last'; buckets = fresh last' left })

  -- takeErrors
  unfoldable pub take_errors : Aggregator fl → List RunError × Aggregator fl
  take_errors a = (a.log.new_errors, record a { log = record a.log { new_errors = [] } })

  -- instanceDone
  unfoldable pub instance_done : String → Aggregator fl → Aggregator fl
  instance_done inst a = record a { latest = remove inst a.latest }
