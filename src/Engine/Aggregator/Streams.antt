-- ===== src/Engine/Aggregator/Streams.antt =====
-- The points that a run publishes, over any stream of samples, batches and rounds of the loop.
use open_synapse.Prelude.{
  ℕ, zero, suc, ◌+◌, String, ◌≡◌, refl, inl, inr, false, none, List, [], ◌∷◌, ◌++◌, map, arith,
  if◌then◌else◌, Bool-cases,
}
use open_synapse.Prelude.Int.{
  ℤ, pos, pos_part, ◌+ℤ◌, ◌-ℤ◌, ◌≤ℤ◌, ltb_ℤ, leb_ℤ, max_ℤ, scale, int_laws, one_part, ltb_ℤ→lt,
}
use open_synapse.Prelude.Assoc.{string_eq, int_eq, Map, lookup, remove}
use open_synapse.Float64.{Float64}
use open_synapse.Engine.Histogram.{Sorting}
use open_synapse.Engine.Aggregator.{Bucket, Aggregator, new_aggregator}
use open_synapse.Engine.Aggregator.Samples.{Sample, ingest}
use open_synapse.Engine.Aggregator.Batches.{IngestBatch, merge}
use open_synapse.Engine.Aggregator.Emission.{
  MetricPoint, point_of, quiet_point, point_for, emit, fresh, emitted_before, rounds, snapshots,
  take_errors, instance_done,
}
use open_synapse.Engine.Aggregator.Balance.{Counter, sum_points}
use open_synapse.Engine.Aggregator.Conservation.{is_early, late, lookup-fresh}

-- What reaches an aggregator: a line with the number that rand.Int64N returned, a batch, a call of
-- snapshots, a call of takeErrors, and the end of an instance.
pub data Arrival (fl : Float64) : Type 0 where
  line : ℕ → String → Sample fl → Arrival fl
  batch : IngestBatch fl → Arrival fl
  publish : ℤ → Arrival fl
  take_log : Arrival fl
  finish : String → Arrival fl

-- The aggregator with the points published so far, and what was dropped as `late`.
pub record Published (fl : Float64) : Type 0 where
  pub agg : Aggregator fl
  pub points : List (MetricPoint fl)
  pub dropped : Counter → ℕ

module _ (fl : Float64) (lib : Sorting fl) (atoi : String → ℤ) where
  unfoldable pub receive : Arrival fl → Published fl → Published fl
  receive (line j inst l) s = record s { agg = (ingest fl atoi j inst l s.agg).0 }
  receive (batch b) s = record s { agg = merge fl b s.agg }
  receive (publish up_to) s =
      let (points, agg) = snapshots fl lib up_to s.agg in
      record {
        agg = agg;
        points = s.points ++ points;
        dropped = λ c. s.dropped c + late fl lib s.agg c;
      }
  receive take_log s = record s { agg = (take_errors fl lib s.agg).1 }
  receive (finish inst) s = record s { agg = instance_done fl lib inst s.agg }

  unfoldable pub receive_all : List (Arrival fl) → Published fl → Published fl
  receive_all [] s = s
  receive_all (x ∷ xs) s = receive_all xs (receive x s)

  unfoldable pub nothing_yet : ℤ → Published fl
  nothing_yet vu_offset = record {
    agg = new_aggregator fl vu_offset;
    points = [];
    dropped = λ c. 0;
  }

  -- What was published or dropped.
  abbrev gone : Published fl → Counter → ℕ
  gone s c = sum_points fl c s.points + s.dropped c

-- `n` consecutive seconds.
abbrev pub seconds_after : ℤ → ℕ → List ℤ
seconds_after last zero = []
seconds_after last (suc n) = (last +ℤ pos 1) ∷ seconds_after (last +ℤ pos 1) n

last_second : (last up_to : ℤ) → last +ℤ pos (pos_part (up_to -ℤ last)) ≡ max_ℤ last up_to
last_second last up_to = elim (Bool-cases (ltb_ℤ last up_to)) [
  | inl more ↦ rw more (omega (int_laws, ltb_ℤ→lt last up_to more, one_part (up_to -ℤ last)))
  | inr done ↦
      let le : up_to ≤ℤ last = ground arith in rw done (omega (int_laws, one_part (up_to -ℤ last)))
]

module _ (fl : Float64) (lib : Sorting fl) where
  emit_seconds :
      (n : ℕ) (current last : ℤ) (m : Map ℤ (Bucket fl))
      → map (λ p. p.timestamp_ms) (emit fl lib n current last m).0
        ≡ map (λ sec. scale sec 1000) (seconds_after last n)
  unfolding emit point_for point_of quiet_point
  emit_seconds zero current last m = refl
  emit_seconds (suc n) current last m =
      let sec = last +ℤ pos 1 in ground (arith, emit_seconds n current sec (remove sec m))

  dropped_before :
      (last k : ℤ) (m : Map ℤ (Bucket fl))
      → (if leb_ℤ k last then lookup k (fresh fl lib last m) else none) ≡ none
  dropped_before last k m = ground (arith, lookup-fresh fl lib last k m)

  -- Once a sample has come, a call publishes one point for each second after the last one published
  -- up to the requested one, in order and without a gap; it remembers the last of them, and leaves
  -- no bucket at or before it.
  pub snapshots_seconds :
      (up_to : ℤ) (a : Aggregator fl) (k : ℤ)
      → is_early fl lib a ≡ false
      → let (points, a') = snapshots fl lib up_to a in
        let last = emitted_before fl lib a in
        (map (λ p. p.timestamp_ms) points
          ≡ map (λ sec. scale sec 1000) (seconds_after last (rounds fl lib a up_to)))
        × (a'.last_emitted ≡ max_ℤ last up_to)
        × ((if leb_ℤ k a'.last_emitted then lookup k a'.buckets else none) ≡ none)
  unfolding snapshots rounds
  snapshots_seconds up_to a k h =
      let last = emitted_before fl lib a in
      let n = rounds fl lib a up_to in
      let current = a.gauge.current_vus in
      let left = (emit fl lib n current last a.buckets).1 in
      rw h (
        emit_seconds n current last a.buckets,
        last_second last up_to,
        dropped_before (last +ℤ pos n) k left,
      )
