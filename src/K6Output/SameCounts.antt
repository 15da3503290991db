-- ===== src/K6Output/SameCounts.antt =====
-- A cluster run counts what a local run counts: the two ways of a sample into the aggregator of the
-- control plane, through a batch of the extension and as a line of JSON.
use mathlib.Core.Path.{subst}
use open_synapse.Prelude.{
  ℕ, String, ◌≡◌, sym, ◌⊎◌, inl, inr, true, Option, none, some, List, [], ◌∷◌, arith, Bool-cases,
  Option-cases, All,
}
use open_synapse.Prelude.Int.{ℤ, eqb_ℤ}
use open_synapse.Prelude.Assoc.{string_eq, int_eq}
use text.Mathlib.Text.{◌==◌ as str_eq}
use open_synapse.Float64.{Float64}
use open_synapse.Engine.Instances.{unix}
use open_synapse.Engine.Aggregator.{control_scenario}
use open_synapse.Engine.Aggregator.Samples.{is_nonzero}
use open_synapse.K6Output.{
  K6Sample, Hist, Second, Batch, Metric, metric_of, sample_tag, new_hist, hist_add, with_duration,
  empty_second, at_second, fold_second, fold_sample, fold,
}
use open_synapse.Engine.Aggregator.Balance.{Counter}
use open_synapse.K6Output.Counts.{Measure, counted, bucket_for, sum_key-bump, fold-amount}
use open_synapse.Engine.Aggregator.Balance.{of_bucket}
use open_synapse.Engine.Aggregator.{Aggregator, bucket}
use open_synapse.Engine.Aggregator.Batches.{merge}
use open_synapse.K6Output.Sending.{empty_batch}
use open_synapse.K6Output.Merged.{IsHist, AreHists, of_run, merge_seconds-run, merge_seconds-bucket}
use open_synapse.K6Output.Wire.{decode}
use open_synapse.K6Output.Ingested.{
  ingest_all, samples_of, ingest_all-run, ingest_all-bucket, K6Json, IsTagged,
}
use open_synapse.K6Output.Sending.{Output, pending_batch, flushed}

module _ (fl : Float64) where
  open fl use {F}

  IsHist-with_duration : (v : F) (h : Option (Hist fl)) → IsHist h → IsHist (with_duration fl v h)
  unfolding with_duration hist_add new_hist
  IsHist-with_duration v none ok = λ k. ground (arith, sum_key-bump fl k (bucket_for fl v) 1 [])
  IsHist-with_duration v (some h) ok =
      λ k. ground (arith, ok k, sum_key-bump fl k (bucket_for fl v) 1 h.buckets)

  IsHist-fold_second :
      (metric : Metric) (v : F) (s : Second fl)
      → IsHist s.durations
      → IsHist (fold_second fl metric v s).durations
  unfolding fold_second
  IsHist-fold_second Metric.http_reqs v s ok = ok
  IsHist-fold_second Metric.http_req_duration v s ok = IsHist-with_duration v s.durations ok
  IsHist-fold_second Metric.http_req_failed v s ok = elim (Bool-cases (is_nonzero fl v)) [
    | inl y ↦ rw y ok
    | inr n ↦ rw n ok
  ]
  IsHist-fold_second Metric.iterations v s ok = ok
  IsHist-fold_second Metric.checks v s ok = elim (Bool-cases (is_nonzero fl v)) [
    | inl y ↦ rw y ok
    | inr n ↦ rw n ok
  ]
  IsHist-fold_second Metric.data_sent v s ok = ok
  IsHist-fold_second Metric.data_received v s ok = ok
  IsHist-fold_second Metric.vus v s ok = ok
  IsHist-fold_second Metric.other v s ok = ok

  AreHists-at_second :
      (t : ℤ) (metric : Metric) (v : F) (ss : List (Second fl))
      → AreHists ss
      → AreHists (at_second fl t (fold_second fl metric v) ss)
  unfolding at_second empty_second
  AreHists-at_second t metric v [] ok = (IsHist-fold_second metric v (empty_second fl t) tt, tt)
  AreHists-at_second t metric v (s ∷ ss) ok = elim (Bool-cases (eqb_ℤ s.unix_time t)) [
    | inl this ↦ rw this (IsHist-fold_second metric v s ok.0, ok.1)
    | inr other ↦ rw other (ok.0, AreHists-at_second t metric v ss ok.1)
  ]

  fold_sample-seconds :
      (atoi : String → ℤ) (s : K6Sample fl) (b : Batch fl)
      → ((fold_sample fl atoi s b).seconds ≡ b.seconds)
        ⊎ ((metric : Metric) × ((fold_sample fl atoi s b).seconds
              ≡ at_second fl (unix s.time) (fold_second fl metric s.value) b.seconds))
  unfolding fold_sample
  fold_sample-seconds atoi s b = elim (Option-cases s.metric) [
    | inl off ↦ inl (ground (arith, off))
    | inr (name, on) ↦ elim (Bool-cases (str_eq (sample_tag "scenario" s) control_scenario)) [
      | inl control ↦ inl (ground (arith, on, control))
      | inr user ↦ inr (metric_of name, ground (arith, on, user))
    ]
  ]

  -- The batches of the extension hold proper histograms.
  pub AreHists-fold :
      (atoi : String → ℤ) (ss : List (K6Sample fl)) (b : Batch fl)
      → AreHists b.seconds
      → AreHists (fold fl atoi ss b).seconds
  unfolding fold
  AreHists-fold atoi [] b ok = ok
  AreHists-fold atoi (s ∷ ss) b ok =
      AreHists-fold atoi ss (fold_sample fl atoi s b) (elim (fold_sample-seconds atoi s b) [
        | inl same ↦ subst AreHists (sym same) ok
        | inr (metric, wrote) ↦
            subst AreHists (sym wrote)
              (AreHists-at_second (unix s.time) metric s.value b.seconds ok)
      ])

  -- For samples of an instance whose scenario, if any, is among the tags, and with k6's JSON output as
  -- documented: merging the batch that the extension makes of them adds to the
  -- aggregator what ingesting their lines of JSON adds, in the run's totals (for requests, failures,
  -- iterations, and passed and failed checks, and for every bucket of the histogram of durations) and
  -- in every second (for the counters).
  pub merge-fold :
      (js : K6Json fl) (atoi : String → ℤ) (inst : String) (now : ℤ) (xs : List (ℕ × K6Sample fl))
      (a : Aggregator fl) (m : Measure) (c : Counter) (sec : ℤ)
      → All (IsTagged fl) (samples_of xs)
      → let o : Output fl = record { instance_name = inst; pending = none } in
        let cluster = merge fl (decode fl (flushed fl atoi now (samples_of xs) o)) a in
        let local = ingest_all fl js atoi inst xs a in
        (of_run fl m cluster.totals ≡ of_run fl m local.totals)
        × (of_bucket fl c (bucket fl sec cluster.buckets)
            ≡ of_bucket fl c (bucket fl sec local.buckets))
  unfolding merge flushed pending_batch empty_batch
  merge-fold js atoi inst now xs a m c sec tagged =
      let ss = samples_of xs in
      let folded = fold fl atoi ss (empty_batch fl) in
      let proper = AreHists-fold atoi ss (empty_batch fl) tt in
      (
        omega (
          arith,
          merge_seconds-run fl m inst folded.seconds a proper,
          fold-amount fl atoi (λ t. true) m ss (empty_batch fl),
          ingest_all-run fl js atoi inst xs m a tagged,
        ),
        omega (
          arith,
          merge_seconds-bucket fl c sec inst folded.seconds a,
          fold-amount fl atoi (eqb_ℤ sec) (counted c) ss (empty_batch fl),
          ingest_all-bucket fl js atoi inst xs c sec a tagged,
        ),
      )
