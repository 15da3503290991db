-- ===== src/K6Output/Merged.antt =====
-- What merging a batch adds to the totals and to the seconds of an aggregator: what its rows count.
use open_synapse.Prelude.{
  ℕ, ◌+◌, ◌≤◌, String, ◌≡◌, ap, inl, inr, true, Option, none, some, List, [], ◌∷◌, map, arith,
  if◌then◌else◌, Bool-cases, Option-cases, All,
}
use open_synapse.Prelude.Int.{ℤ, eqb_ℤ, scale}
use open_synapse.Prelude.Assoc.{string_eq, int_eq, Map, lookup, weigh, lookup-insert, eqb_ℤ_iff}
use open_synapse.Float64.{Float64}
use open_synapse.Engine.Instances.{set_instance_vus}
use open_synapse.Engine.Histogram.{bump}
use open_synapse.K6Output.{Hist, Second}
use open_synapse.Engine.Aggregator.Balance.{Counter}
use open_synapse.K6Output.Counts.{
  Measure, counted, in_bucket, sum_key, of_hist, of_second, rows_amount,
}
use open_synapse.Engine.Aggregator.Balance.{of_bucket, of_totals}
use open_synapse.Engine.Aggregator.{Aggregator, Totals, Bucket, bucket, at_bucket}
use open_synapse.Engine.Aggregator.Samples.{stamp, add_vus}
use open_synapse.Engine.Aggregator.Batches.{
  bump_all, merge_into, merge_bucket, merge_totals, merge_second, merge_seconds,
}
use open_synapse.Engine.Histogram.{Histogram}
use open_synapse.K6Output.Wire.{decode_durations, decode_second}

-- No bucket of the histogram holds more than it counts.
abbrev pub IsHist : {fl : Float64} → Option (Hist fl) → Type 0
IsHist none = Unit
IsHist (some h) = (k : ℤ) → sum_key k h.buckets ≤ h.count

abbrev pub AreHists : {fl : Float64} → List (Second fl) → Type 0
AreHists ss = All (λ s. IsHist s.durations) ss

module _ (fl : Float64) where
  open fl use {F}

  -- what the totals of an aggregator hold of a measure
  abbrev pub of_run : Measure → Totals fl → ℕ
  of_run (counted c) t = of_totals fl c t
  of_run (in_bucket k) t = weigh (λ n. n) (lookup k t.total.buckets)

  pub bump-lookup :
      (k j : ℤ) (n : ℕ) (m : Map ℤ ℕ)
      → weigh (λ x. x) (lookup k (bump fl j n m))
        ≡ weigh (λ x. x) (lookup k m) + (if eqb_ℤ j k then n else 0)
  unfolding bump
  bump-lookup k j n m =
      ground (arith, eqb_ℤ_iff j k, lookup-insert j k (weigh (λ x. x) (lookup j m) + n) m)

  bump_all-lookup :
      (k : ℤ) (new m : Map ℤ ℕ)
      → weigh (λ x. x) (lookup k (bump_all fl new m)) ≡ weigh (λ x. x) (lookup k m) + sum_key k new
  unfolding bump_all
  bump_all-lookup k [] m = omega arith
  bump_all-lookup k ((j, n) ∷ new) m =
      omega (arith, bump_all-lookup k new (bump fl j n m), bump-lookup k j n m)

  merge_into-lookup :
      (k : ℤ) (d : Option (Hist fl)) (h : Histogram fl)
      → IsHist d
      → weigh (λ x. x) (lookup k (merge_into fl (decode_durations fl d) h).buckets)
        ≡ weigh (λ x. x) (lookup k h.buckets) + of_hist fl k d
  unfolding merge_into
  merge_into-lookup k none h ok = omega arith
  merge_into-lookup k (some d) h ok = ground (arith, ok k, bump_all-lookup k d.buckets h.buckets)

  merge_second-run :
      (c : Measure) (inst : String) (s : Second fl) (a : Aggregator fl)
      → IsHist s.durations
      → of_run c (merge_second fl inst (decode_second fl s) a).totals
        ≡ of_run c a.totals + of_second fl c s
  unfolding merge_second merge_totals stamp add_vus
  merge_second-run (counted c) inst s a ok = ground arith
  merge_second-run (in_bucket k) inst s a ok =
      ground (arith, merge_into-lookup k s.durations a.totals.total ok)

  merge_bucket-amount :
      (c : Counter) (s : Second fl) (b : Bucket fl)
      → of_bucket fl c (merge_bucket fl (decode_second fl s) b)
        ≡ of_bucket fl c b + of_second fl (counted c) s
  unfolding merge_bucket
  merge_bucket-amount c s b = ground arith

  -- A write to the bucket of a second adds to that second what it adds to the bucket.
  pub bucket-at_bucket :
      (c : Counter) (sec t : ℤ) (f : Bucket fl → Bucket fl) (m : Map ℤ (Bucket fl)) (d : ℕ)
      → of_bucket fl c (f (bucket fl t m)) ≡ of_bucket fl c (bucket fl t m) + d
      → of_bucket fl c (bucket fl sec (at_bucket fl t f m))
        ≡ of_bucket fl c (bucket fl sec m) + (if eqb_ℤ sec t then d else 0)
  unfolding at_bucket bucket
  bucket-at_bucket c sec t f m d h =
      let found = lookup-insert t sec (f (bucket fl t m)) m in
      elim (Bool-cases (eqb_ℤ sec t)) [
        | inl same ↦
            let e : sec ≡ t = (eqb_ℤ_iff sec t).0 same in
            let old : of_bucket fl c (bucket fl sec m) ≡ of_bucket fl c (bucket fl t m) =
              ap (λ u. of_bucket fl c (bucket fl u m)) e in
            ground (arith, eqb_ℤ_iff t sec, found, e, old)
        | inr apart ↦ ground (arith, eqb_ℤ_iff sec t, eqb_ℤ_iff t sec, found)
      ]

  vus-amount :
      (c : Counter) (n : ℤ) (b : Bucket fl)
      → of_bucket fl c (record b { vus = n; has_vus = true }) ≡ of_bucket fl c b + 0
  vus-amount c n b = ground arith

  merge_second-bucket :
      (c : Counter) (sec : ℤ) (inst : String) (s : Second fl) (a : Aggregator fl)
      → of_bucket fl c (bucket fl sec (merge_second fl inst (decode_second fl s) a).buckets)
        ≡ of_bucket fl c (bucket fl sec a.buckets)
          + (if eqb_ℤ sec s.unix_time then of_second fl (counted c) s else 0)
  unfolding merge_second add_vus
  merge_second-bucket c sec inst s a =
      let at = scale s.unix_time 1000000000 in
      let rows = decode_second fl s in
      let merged = at_bucket fl s.unix_time (merge_bucket fl rows) a.buckets in
      let added =
        bucket-at_bucket c sec s.unix_time (merge_bucket fl rows) a.buckets
          (of_second fl (counted c) s)
          (merge_bucket-amount c s (bucket fl s.unix_time a.buckets)) in
      elim (Option-cases s.vus) [
        | inl off ↦ ground (arith, added)
        | inr (n, on) ↦
            let count = set_instance_vus inst n a.gauge in
            ground (
              arith,
              added,
              bucket-at_bucket c sec s.unix_time
                  (λ b. record b { vus = count.current_vus; has_vus = true }) merged 0
                  (vus-amount c count.current_vus (bucket fl s.unix_time merged)),
            )
      ]

  pub merge_seconds-run :
      (c : Measure) (inst : String) (ss : List (Second fl)) (a : Aggregator fl)
      → AreHists ss
      → of_run c (merge_seconds fl inst (map (decode_second fl) ss) a).totals
        ≡ of_run c a.totals + rows_amount fl (λ t. true) c ss
  unfolding merge_seconds
  merge_seconds-run c inst [] a ok = omega arith
  merge_seconds-run c inst (s ∷ ss) a ok = omega (
    arith,
    merge_second-run c inst s a ok.0,
    merge_seconds-run c inst ss (merge_second fl inst (decode_second fl s) a) ok.1,
  )

  pub merge_seconds-bucket :
      (c : Counter) (sec : ℤ) (inst : String) (ss : List (Second fl)) (a : Aggregator fl)
      → of_bucket fl c (bucket fl sec (merge_seconds fl inst (map (decode_second fl) ss) a).buckets)
        ≡ of_bucket fl c (bucket fl sec a.buckets) + rows_amount fl (eqb_ℤ sec) (counted c) ss
  unfolding merge_seconds
  merge_seconds-bucket c sec inst [] a = omega arith
  merge_seconds-bucket c sec inst (s ∷ ss) a = ground (
    arith,
    merge_second-bucket c sec inst s a,
    merge_seconds-bucket c sec inst ss (merge_second fl inst (decode_second fl s) a),
  )
