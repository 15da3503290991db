-- ===== src/Engine/Aggregator/Bounds.antt =====
-- What a run keeps in memory stays bounded over any stream of arrivals.
use open_synapse.Engine.Instances.{advance}
use open_synapse.Prelude.{ℕ, String, refl, inl, inr, List, [], ◌∷◌, arith, Option-cases}
use open_synapse.Prelude.Int.{ℤ, pos, ◌+ℤ◌, scale}
use open_synapse.Prelude.Assoc.{string_eq, int_eq}
use open_synapse.Float64.{Float64}
use open_synapse.Engine.Histogram.{Sorting}
use open_synapse.Engine.Aggregator.{Aggregator, new_aggregator, at_bucket}
use open_synapse.Engine.Aggregator.Samples.{Sample, stamp, count_sample, ingest}
use open_synapse.Engine.Aggregator.Batches.{
  IngestSecond, IngestBatch, merge_bucket, merge_totals, merge_second, merge_seconds, merge,
}
use open_synapse.Engine.Aggregator.Emission.{snapshots, take_errors, instance_done}
use open_synapse.Engine.Aggregator.Streams.{
  Arrival, line, batch, publish, take_log, finish, Published, receive, receive_all, nothing_yet,
}
use open_synapse.Engine.Aggregator.Limits.{
  IsBounded, IsBounded-vus, IsBounded-count_sample, IsFew-merge_endpoints, IsShort-merge_errors,
}

module _ (fl : Float64) (lib : Sorting fl) (atoi : String → ℤ) where
  abbrev Bounded : Aggregator fl → Type 0
  Bounded = IsBounded fl lib atoi

  ingest-IsBounded :
      (j : ℕ) (inst : String) (l : Sample fl) (a : Aggregator fl)
      → Bounded a
      → Bounded (ingest fl atoi j inst l a).0
  unfolding ingest
  ingest-IsBounded j inst l a h =
      let seen : Aggregator fl = record a { latest = advance inst l.time a.latest } in
      let stamped : Aggregator fl = record seen { totals = stamp fl l.time l.time a.totals } in
      let ht : Bounded stamped = record { few = h.few; short = h.short; gauge = h.gauge } in
      let counted = IsBounded-count_sample fl lib atoi j inst l stamped ht in
      elim (Option-cases (count_sample fl atoi j inst l stamped)) [
        | inl off ↦ ground (arith, ht, h)
        | inr (b, on) ↦ ground (arith, counted, h)
      ]

  merge_second-IsBounded :
      (inst : String) (s : IngestSecond fl) (a : Aggregator fl)
      → Bounded a
      → Bounded (merge_second fl inst s a)
  unfolding merge_second
  merge_second-IsBounded inst s a h =
      let at = scale s.second 1000000000 in
      let counted : Aggregator fl = record a {
        totals = merge_totals fl s (stamp fl at (at +ℤ pos 1000000000) a.totals);
        buckets = at_bucket fl s.second (merge_bucket fl s) a.buckets;
      } in
      let hc : Bounded counted = record { few = h.few; short = h.short; gauge = h.gauge } in
      elim (Option-cases s.vus) [
        | inl off ↦ ground (arith, hc)
        | inr (n, on) ↦ ground (arith, IsBounded-vus fl lib atoi inst s.second n counted hc)
      ]

  merge_seconds-IsBounded :
      (inst : String) (ss : List (IngestSecond fl)) (a : Aggregator fl)
      → Bounded a
      → Bounded (merge_seconds fl inst ss a)
  unfolding merge_seconds
  merge_seconds-IsBounded inst [] a h = h
  merge_seconds-IsBounded inst (s ∷ ss) a h =
      merge_seconds-IsBounded inst ss (merge_second fl inst s a) (merge_second-IsBounded inst s a h)

  merge-IsBounded : (b : IngestBatch fl) (a : Aggregator fl) → Bounded a → Bounded (merge fl b a)
  unfolding merge
  merge-IsBounded b a h =
      let counted = merge_seconds fl b.sender b.seconds a in
      let hc = merge_seconds-IsBounded b.sender b.seconds a h in
      record {
        few = IsFew-merge_endpoints fl lib atoi b.endpoints counted.endpoints hc.few;
        short = IsShort-merge_errors fl lib atoi b.errors counted.log hc.short;
        gauge = hc.gauge;
      }

  snapshots-IsBounded :
      (up_to : ℤ) (a : Aggregator fl) → Bounded a → Bounded (snapshots fl lib up_to a).1
  unfolding snapshots
  snapshots-IsBounded up_to a h = ground (arith, h)

  receive-IsBounded :
      (x : Arrival fl) (s : Published fl) → Bounded s.agg → Bounded (receive fl lib atoi x s).agg
  unfolding receive take_errors instance_done
  receive-IsBounded (line j inst l) s h = ingest-IsBounded j inst l s.agg h
  receive-IsBounded (batch b) s h = merge-IsBounded b s.agg h
  receive-IsBounded (publish up_to) s h = snapshots-IsBounded up_to s.agg h
  receive-IsBounded take_log s h = record {
    few = h.few;
    short = (h.short.0, omega arith);
    gauge = h.gauge;
  }
  receive-IsBounded (finish inst) s h = record { few = h.few; short = h.short; gauge = h.gauge }

  receive_all-IsBounded_from :
      (xs : List (Arrival fl)) (s : Published fl)
      → Bounded s.agg
      → Bounded (receive_all fl lib atoi xs s).agg
  unfolding receive_all
  receive_all-IsBounded_from [] s h = h
  receive_all-IsBounded_from (x ∷ xs) s h =
      receive_all-IsBounded_from xs (receive fl lib atoi x s) (receive-IsBounded x s h)

  new_aggregator-IsBounded : (vu_offset : ℤ) → Bounded (new_aggregator fl vu_offset)
  unfolding new_aggregator
  new_aggregator-IsBounded vu_offset = record {
    few = inl (omega arith);
    short = (omega arith, omega arith);
    gauge = (refl, omega arith);
  }

-- Over any stream of samples, worker batches and rounds of the loop, in any order: at most 50 errors
-- are kept and at most 50 wait to be taken, at most 200 endpoints are tracked besides one entry that
-- stands for all others, and the VU gauge is the sum over the instances and never above its peak.
pub receive_all-IsBounded :
    (fl : Float64) (lib : Sorting fl) (atoi : String → ℤ) (vu_offset : ℤ) (xs : List (Arrival fl))
    → IsBounded fl lib atoi (receive_all fl lib atoi xs (nothing_yet fl lib atoi vu_offset)).agg
unfolding nothing_yet
receive_all-IsBounded fl lib atoi vu_offset xs =
    receive_all-IsBounded_from fl lib atoi xs (nothing_yet fl lib atoi vu_offset)
      (new_aggregator-IsBounded fl lib atoi vu_offset)
