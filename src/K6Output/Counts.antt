-- ===== src/K6Output/Counts.antt =====
-- What a batch counts, in any choice of seconds: the samples that were folded into it.
use open_synapse.Prelude.{
  ℕ, ◌+◌, String, ◌≡◌, refl, inl, inr, Bool, Option, none, some, List, [], ◌∷◌, arith,
  if◌then◌else◌, Option-cases,
}
use open_synapse.Prelude.Int.{ℤ, pos, eqb_ℤ}
use open_synapse.Prelude.Assoc.{string_eq, int_eq, Map, lookup, insert, eqb_ℤ_iff}
use text.Mathlib.Text.{◌==◌ as str_eq}
use open_synapse.Float64.{Float64}
use open_synapse.Engine.Instances.{unix}
use open_synapse.Engine.Histogram.{bucket_of, bump}
use open_synapse.Engine.Aggregator.{control_scenario}
use open_synapse.Engine.Aggregator.Samples.{is_nonzero}
use open_synapse.K6Output.{
  K6Sample, Hist, Second, Batch, Metric, metric_of, sample_tag, new_hist, hist_add, with_duration,
  empty_second, at_second, fold_second, fold_sample, fold,
}
use open_synapse.Engine.Aggregator.Balance.{
  Counter, requests, failed, iterations, passed, unpassed, tally,
}

-- What both ends count: the counters, and the durations in a bucket of the histogram.
pub data Measure : Type 0 where
  counted : Counter → Measure
  in_bucket : ℤ → Measure

-- the entries of a histogram with a key
abbrev pub sum_key : ℤ → Map ℤ ℕ → ℕ
sum_key k [] = 0
sum_key k ((j, n) ∷ m) = (if eqb_ℤ j k then n else 0) + sum_key k m

module _ (fl : Float64) where
  open fl use {F, of_int, lt}

  -- the bucket that a duration falls into
  abbrev pub bucket_for : F → ℤ
  bucket_for v = bucket_of fl (if lt v (of_int (pos 0)) then of_int (pos 0) else v)

  -- what a sample of a metric counts
  abbrev pub metric_count : Metric → F → Counter → ℕ
  metric_count Metric.http_reqs v c = tally 1 0 0 0 0 c
  metric_count Metric.http_req_failed v c = if is_nonzero fl v then tally 0 1 0 0 0 c else 0
  metric_count Metric.iterations v c = tally 0 0 1 0 0 c
  metric_count Metric.checks v c = if is_nonzero fl v then tally 0 0 0 1 0 c else tally 0 0 0 0 1 c
  metric_count _ v c = 0

  abbrev pub metric_amount : Measure → Metric → F → ℕ
  metric_amount (counted c) metric v = metric_count metric v c
  metric_amount (in_bucket k) Metric.http_req_duration v = if eqb_ℤ (bucket_for v) k then 1 else 0
  metric_amount (in_bucket k) _ v = 0

  -- what a sample counts in the seconds that a test picks
  abbrev pub sample_amount : (ℤ → Bool) → Measure → K6Sample fl → ℕ
  sample_amount p c s = elim s.metric [
    | none ↦ 0
    | some name ↦
        if str_eq (sample_tag "scenario" s) control_scenario
        then 0
        else if p (unix s.time)
        then metric_amount c (metric_of name) s.value
        else 0
  ]

  abbrev pub samples_amount : (ℤ → Bool) → Measure → List (K6Sample fl) → ℕ
  samples_amount p c [] = 0
  samples_amount p c (s ∷ ss) = sample_amount p c s + samples_amount p c ss

  abbrev pub of_hist : ℤ → Option (Hist fl) → ℕ
  of_hist k none = 0
  of_hist k (some h) = sum_key k h.buckets

  abbrev pub of_second : Measure → Second fl → ℕ
  of_second (counted requests) s = s.requests
  of_second (counted failed) s = s.failed
  of_second (counted iterations) s = s.iterations
  of_second (counted passed) s = s.checks_passed
  of_second (counted unpassed) s = s.checks_failed
  of_second (in_bucket k) s = of_hist k s.durations

  -- what the rows of a batch count in the seconds that a test picks
  abbrev pub rows_amount : (ℤ → Bool) → Measure → List (Second fl) → ℕ
  rows_amount p c [] = 0
  rows_amount p c (s ∷ ss) = (if p s.unix_time then of_second c s else 0) + rows_amount p c ss

  pub sum_key-bump :
      (k j : ℤ) (n : ℕ) (m : Map ℤ ℕ)
      → sum_key k (bump fl j n m) ≡ sum_key k m + (if eqb_ℤ j k then n else 0)
  unfolding bump insert lookup
  sum_key-bump k j n [] = ground arith
  sum_key-bump k j n ((i, x) ∷ m) =
      ground (arith, eqb_ℤ_iff i j, eqb_ℤ_iff j k, sum_key-bump k j n m)

  of_hist-with_duration :
      (k : ℤ) (v : F) (h : Option (Hist fl))
      → of_hist k (with_duration fl v h) ≡ of_hist k h + (if eqb_ℤ (bucket_for v) k then 1 else 0)
  unfolding with_duration hist_add new_hist
  of_hist-with_duration k v none = ground (arith, sum_key-bump k (bucket_for v) 1 [])
  of_hist-with_duration k v (some h) = ground (arith, sum_key-bump k (bucket_for v) 1 h.buckets)

  fold_second-amount :
      (c : Measure) (metric : Metric) (v : F) (s : Second fl)
      → of_second c (fold_second fl metric v s) ≡ of_second c s + metric_amount c metric v
  unfolding fold_second
  fold_second-amount (counted c) Metric.http_reqs v s = ground arith
  fold_second-amount (counted c) Metric.http_req_duration v s = ground arith
  fold_second-amount (counted c) Metric.http_req_failed v s = ground arith
  fold_second-amount (counted c) Metric.iterations v s = ground arith
  fold_second-amount (counted c) Metric.checks v s = ground arith
  fold_second-amount (counted c) Metric.data_sent v s = ground arith
  fold_second-amount (counted c) Metric.data_received v s = ground arith
  fold_second-amount (counted c) Metric.vus v s = ground arith
  fold_second-amount (counted c) Metric.other v s = ground arith
  fold_second-amount (in_bucket k) Metric.http_reqs v s = ground arith
  fold_second-amount (in_bucket k) Metric.http_req_duration v s =
      of_hist-with_duration k v s.durations
  fold_second-amount (in_bucket k) Metric.http_req_failed v s = ground arith
  fold_second-amount (in_bucket k) Metric.iterations v s = ground arith
  fold_second-amount (in_bucket k) Metric.checks v s = ground arith
  fold_second-amount (in_bucket k) Metric.data_sent v s = ground arith
  fold_second-amount (in_bucket k) Metric.data_received v s = ground arith
  fold_second-amount (in_bucket k) Metric.vus v s = ground arith
  fold_second-amount (in_bucket k) Metric.other v s = ground arith

  empty_second-amount : (c : Measure) (t : ℤ) → of_second c (empty_second fl t) ≡ 0
  unfolding empty_second
  empty_second-amount (counted c) t = ground arith
  empty_second-amount (in_bucket k) t = refl

  fold_second-unix_time :
      (metric : Metric) (v : F) (s : Second fl)
      → (fold_second fl metric v s).unix_time ≡ s.unix_time
  unfolding fold_second
  fold_second-unix_time metric v s = ground arith

  at_second-amount :
      (p : ℤ → Bool) (c : Measure) (metric : Metric) (v : F) (t : ℤ) (ss : List (Second fl))
      → rows_amount p c (at_second fl t (fold_second fl metric v) ss)
        ≡ rows_amount p c ss + (if p t then metric_amount c metric v else 0)
  unfolding at_second empty_second
  at_second-amount p c metric v t [] = ground (
    arith,
    fold_second-amount c metric v (empty_second fl t),
    fold_second-unix_time metric v (empty_second fl t),
    empty_second-amount c t,
  )
  at_second-amount p c metric v t (s ∷ ss) = ground (
    arith,
    fold_second-amount c metric v s,
    fold_second-unix_time metric v s,
    eqb_ℤ_iff s.unix_time t,
    at_second-amount p c metric v t ss,
  )

  pub fold-amount :
      (atoi : String → ℤ) (p : ℤ → Bool) (c : Measure) (ss : List (K6Sample fl)) (b : Batch fl)
      → rows_amount p c (fold fl atoi ss b).seconds
        ≡ rows_amount p c b.seconds + samples_amount p c ss
  unfolding fold fold_sample
  fold-amount atoi p c [] b = omega arith
  fold-amount atoi p c (s ∷ ss) b =
      let rest = fold-amount atoi p c ss (fold_sample fl atoi s b) in
      elim (Option-cases s.metric) [
        | inl off ↦ ground (arith, rest)
        | inr (name, on) ↦
            ground
              (arith, rest, at_second-amount p c (metric_of name) s.value (unix s.time) b.seconds)
      ]
