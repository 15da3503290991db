-- ===== src/Engine/Aggregator/Conservation.antt =====
-- No sample is counted twice or lost between the run's totals and its per-second points.
use open_synapse.Engine.Instances.{advance, zero_time, unix}
use open_synapse.Prelude.{
  ℕ, zero, suc, ◌+◌, String, ◌≡◌, refl, ap, ◌∙◌, inl, inr, Bool, ◌&&◌, none, List, [], ◌∷◌, arith,
  if◌then◌else◌, Bool-cases, Option-cases,
}
use open_synapse.Prelude.Int.{
  ℤ, pos, ◌+ℤ◌, leb_ℤ, eqb_ℤ, scale, int_laws, +ℤ_parts, ltb_ℤ, -ℤ_parts,
}
use open_synapse.Prelude.Assoc.{
  string_eq, int_eq, Map, lookup, remove, Unique, sum_by, Unique-remove, sum_by-remove, eqb_ℤ_iff,
}
use text.Mathlib.Text.{◌==◌ as str_eq}
use open_synapse.Float64.{Float64}
use open_synapse.Engine.Histogram.{Sorting}
use open_synapse.Engine.Aggregator.{control_scenario, tag, Bucket, Aggregator, at_bucket}
use open_synapse.Engine.Aggregator.Samples.{Sample, stamp, count_sample, ingest}
use open_synapse.Engine.Aggregator.Batches.{
  IngestSecond, IngestBatch, merge_bucket, merge_totals, merge_second, merge_seconds, merge,
}
use open_synapse.Engine.Aggregator.Emission.{
  point_of, quiet_point, point_for, emit, stale, fresh, emitted_before, rounds, snapshots,
}
use open_synapse.Engine.Aggregator.Balance.{
  Counter, tally, of_bucket, sum_points, IsBalanced, IsBalanced-write, IsBalanced-same,
  add_vus-IsBalanced, count_sample-IsBalanced,
}

module _ (fl : Float64) (lib : Sorting fl) where
  pub ingest-IsBalanced :
      (gone : Counter → ℕ) (atoi : String → ℤ) (j : ℕ) (inst : String) (l : Sample fl)
      (a : Aggregator fl)
      → IsBalanced fl gone a
      → IsBalanced fl gone (ingest fl atoi j inst l a).0
  unfolding ingest stamp
  ingest-IsBalanced gone atoi j inst l a h =
      let seen : Aggregator fl = record a { latest = advance inst l.time a.latest } in
      let stamped : Aggregator fl = record seen { totals = stamp fl l.time l.time a.totals } in
      let hs = IsBalanced-same fl gone a seen refl (λ c. refl) h in
      let ht = IsBalanced-same fl gone a stamped refl (λ c. ground arith) h in
      let counted = count_sample-IsBalanced fl gone atoi j inst l stamped ht in
      elim (Bool-cases (str_eq l.kind "Point")) [
        | inr other ↦ rw other h
        | inl point ↦ elim (Bool-cases (str_eq (tag "scenario" l.tags) control_scenario)) [
          | inl control ↦ rw point (rw control hs)
          | inr user ↦ rw point (
              rw user (elim (Option-cases (count_sample fl atoi j inst l stamped)) [
                | inl off ↦ rw off ht
                | inr (a', on) ↦ rw on (counted.at a' on)
              ]))
        ]
      ]

  merge_second-IsBalanced :
      (gone : Counter → ℕ) (inst : String) (s : IngestSecond fl) (a : Aggregator fl)
      → IsBalanced fl gone a
      → IsBalanced fl gone (merge_second fl inst s a)
  unfolding merge_second stamp merge_totals merge_bucket
  merge_second-IsBalanced gone inst s a h =
      let at = scale s.second 1000000000 in
      let counted : Aggregator fl = record a {
        totals = merge_totals fl s (stamp fl at (at +ℤ pos 1000000000) a.totals);
        buckets = at_bucket fl s.second (merge_bucket fl s) a.buckets;
      } in
      let amounts = tally s.requests s.failed s.iterations s.checks_passed s.checks_failed in
      let hc =
        IsBalanced-write fl gone a counted s.second (merge_bucket fl s) amounts refl
          (λ c. ground arith) (λ c b. ground arith) h in
      elim (Option-cases s.vus) [
        | inl off ↦ ground (arith, hc)
        | inr (n, on) ↦ ground (arith, add_vus-IsBalanced fl gone inst s.second n counted hc)
      ]

  merge_seconds-IsBalanced :
      (gone : Counter → ℕ) (inst : String) (ss : List (IngestSecond fl)) (a : Aggregator fl)
      → IsBalanced fl gone a
      → IsBalanced fl gone (merge_seconds fl inst ss a)
  unfolding merge_seconds
  merge_seconds-IsBalanced gone inst [] a h = h
  merge_seconds-IsBalanced gone inst (s ∷ ss) a h =
      merge_seconds-IsBalanced gone inst ss (merge_second fl inst s a)
        (merge_second-IsBalanced gone inst s a h)

  pub merge-IsBalanced :
      (gone : Counter → ℕ) (b : IngestBatch fl) (a : Aggregator fl)
      → IsBalanced fl gone a
      → IsBalanced fl gone (merge fl b a)
  unfolding merge
  merge-IsBalanced gone b a h =
      let counted = merge_seconds fl b.sender b.seconds a in
      IsBalanced-same fl gone counted (merge fl b a) refl (λ c. refl)
        (merge_seconds-IsBalanced gone b.sender b.seconds a h)

  -- what the points of some seconds hold, and what stays in the buckets
  sum_emit :
      (c : Counter) (n : ℕ) (current last : ℤ) (m : Map ℤ (Bucket fl))
      → Unique m
      → sum_points fl c (emit fl lib n current last m).0
          + sum_by (of_bucket fl c) (emit fl lib n current last m).1
        ≡ sum_by (of_bucket fl c) m
  unfolding emit point_for point_of quiet_point
  sum_emit c zero current last m u = omega arith
  sum_emit c (suc n) current last m u =
      let sec = last +ℤ pos 1 in
      let rest = sum_emit c n current sec (remove sec m) (Unique-remove sec m u) in
      let taken = sum_by-remove (of_bucket fl c) sec m u in ground (arith, rest, taken)

  Unique-emit :
      (n : ℕ) (current last : ℤ) (m : Map ℤ (Bucket fl))
      → Unique m
      → Unique (emit fl lib n current last m).1
  unfolding emit
  Unique-emit zero current last m u = u
  Unique-emit (suc n) current last m u =
      Unique-emit n current (last +ℤ pos 1) (remove (last +ℤ pos 1) m)
        (Unique-remove (last +ℤ pos 1) m u)

  -- Emitting removes no bucket at or before the second it starts after.
  stale-remove :
      (last : ℤ) (m : Map ℤ (Bucket fl))
      → stale fl lib (last +ℤ pos 1) (remove (last +ℤ pos 1) m) ≡ stale fl lib last m
  unfolding stale remove
  stale-remove last [] = refl
  stale-remove last ((k, b) ∷ m) = ground (arith, +ℤ_parts last (pos 1), stale-remove last m)

  stale-emit :
      (n : ℕ) (current last : ℤ) (m : Map ℤ (Bucket fl))
      → stale fl lib (last +ℤ pos n) (emit fl lib n current last m).1 ≡ stale fl lib last m
  unfolding emit
  stale-emit zero current last m = let e : last +ℤ pos 0 ≡ last = omega int_laws in rw e refl
  stale-emit (suc n) current last m =
      let sec = last +ℤ pos 1 in
      let e : last +ℤ pos (suc n) ≡ sec +ℤ pos n = omega int_laws in
      rw e (stale-emit n current sec (remove sec m) ∙ stale-remove last m)

  sum_split :
      (c : Counter) (last : ℤ) (m : Map ℤ (Bucket fl))
      → sum_by (of_bucket fl c) (stale fl lib last m)
          + sum_by (of_bucket fl c) (fresh fl lib last m)
        ≡ sum_by (of_bucket fl c) m
  unfolding stale fresh
  sum_split c last [] = refl
  sum_split c last ((k, b) ∷ m) = ground (arith, sum_split c last m)

  pub lookup-fresh :
      (last k : ℤ) (m : Map ℤ (Bucket fl))
      → lookup k (fresh fl lib last m) ≡ (if leb_ℤ k last then none else lookup k m)
  unfolding fresh lookup
  lookup-fresh last k [] = ground arith
  lookup-fresh last k ((j, b) ∷ m) = ground (arith, eqb_ℤ_iff j k, lookup-fresh last k m)

  Unique-fresh : (last : ℤ) (m : Map ℤ (Bucket fl)) → Unique m → Unique (fresh fl lib last m)
  unfolding fresh
  Unique-fresh last [] u = tt
  Unique-fresh last ((k, b) ∷ m) u = ground (arith, lookup-fresh last k m, Unique-fresh last m u.1)

  -- The call finds nothing ingested yet, and does nothing.
  abbrev pub is_early : Aggregator fl → Bool
  is_early a = eqb_ℤ a.last_emitted (pos 0) && eqb_ℤ a.totals.first_ts zero_time

  -- A second that a call publishes no more: one at or before the last second that an earlier call
  -- has come to, and for the first call one before that of the run's earliest sample.
  abbrev pub is_past : Aggregator fl → ℤ → Bool
  is_past a k =
      if eqb_ℤ a.last_emitted (pos 0)
      then ltb_ℤ k (unix a.totals.first_ts)
      else leb_ℤ k a.last_emitted

  abbrev pub past_buckets : Aggregator fl → Map ℤ (Bucket fl) → Map ℤ (Bucket fl)
  past_buckets a [] = []
  past_buckets a ((k, b) ∷ m) =
      let rest = past_buckets a m in if is_past a k then (k, b) ∷ rest else rest

  -- What waits for such a second, and is dropped by the call.
  abbrev pub late : Aggregator fl → Counter → ℕ
  late a c = if is_early a then 0 else sum_by (of_bucket fl c) (past_buckets a a.buckets)

  is_past_lem : (a : Aggregator fl) (k : ℤ) → is_past a k ≡ leb_ℤ k (emitted_before fl lib a)
  unfolding emitted_before
  is_past_lem a k = ground (arith, -ℤ_parts (unix a.totals.first_ts) (pos 1))

  stale-past :
      (a : Aggregator fl) (m : Map ℤ (Bucket fl))
      → stale fl lib (emitted_before fl lib a) m ≡ past_buckets a m
  unfolding stale
  stale-past a [] = refl
  stale-past a ((k, b) ∷ m) = ground (arith, is_past_lem a k, stale-past a m)

  pub snapshots-IsBalanced :
      (gone : Counter → ℕ) (up_to : ℤ) (a : Aggregator fl)
      → IsBalanced fl gone a
      → IsBalanced fl
          (λ c. gone c + sum_points fl c (snapshots fl lib up_to a).0 + late a c)
          (snapshots fl lib up_to a).1
  unfolding snapshots
  snapshots-IsBalanced gone up_to a h =
      let last = emitted_before fl lib a in
      let n = rounds fl lib a up_to in
      let current = a.gauge.current_vus in
      let left = (emit fl lib n current last a.buckets).1 in
      elim (Bool-cases (is_early a)) [
        | inl early ↦
            rw early (record { keyed = h.keyed; balance = λ c. omega (arith, h.balance c) })
        | inr on ↦ rw on (record {
          keyed = Unique-fresh (last +ℤ pos n) left (Unique-emit n current last a.buckets h.keyed);
          balance = λ c. omega (
            arith,
            h.balance c,
            sum_emit c n current last a.buckets h.keyed,
            sum_split c (last +ℤ pos n) left,
            ap (sum_by (of_bucket fl c)) (stale-emit n current last a.buckets),
            ap (sum_by (of_bucket fl c)) (stale-past a a.buckets),
          );
        })
      ]
