-- ===== src/K6Output/Ingested.antt =====
-- What the lines of k6's JSON output add to the totals and to the seconds of an aggregator: the same
-- counts that the extension makes of the samples.
use open_synapse.Prelude.{
  ℕ, ◌+◌, String, ◌≡◌, refl, inl, inr, true, Option, none, some, List, [], ◌∷◌, arith,
  if◌then◌else◌, Bool-cases, Option-cases, All,
}
use open_synapse.Prelude.Int.{ℤ, eqb_ℤ}
use open_synapse.Prelude.Assoc.{string_eq, int_eq, lookup}
use open_synapse.Float64.{Float64}
use open_synapse.Engine.Instances.{unix, set_instance_vus, advance}
use open_synapse.Engine.Aggregator.Samples.{is_nonzero}
use open_synapse.K6Output.{K6Sample, Metric, metric_of, sample_tag}
use open_synapse.Engine.Aggregator.Balance.{Counter, tally}
use open_synapse.K6Output.Counts.{
  Measure, counted, in_bucket, bucket_for, metric_amount, sample_amount, samples_amount,
}
use open_synapse.Engine.Aggregator.Balance.{of_bucket}
use open_synapse.Engine.Aggregator.{Aggregator, Totals, bucket, tag}
use open_synapse.Engine.Aggregator.Samples.{
  Sample, stamp, add_request, add_duration, add_failure, add_iteration, add_check, add_sent,
  add_received, add_vus, count_sample, ingest, keep_duration,
}
use open_synapse.Engine.Histogram.{observe}
use open_synapse.K6Output.Merged.{of_run, bucket-at_bucket, bump-lookup}

-- What k6 documents of the line that its JSON output writes for a sample of a metric. Metadata stands
-- beside the tags in the line, and the control plane reads the tags only.
abbrev pub json_line : {fl : Float64} → String → K6Sample fl → Sample fl
json_line name s = record {
  kind = "Point";
  metric = name;
  time = s.time;
  value = s.value;
  tags = s.tags;
}

-- k6's JSON output, which is not part of the repository
pub record K6Json (fl : Float64) : Type 0 where
  pub line_of : String → K6Sample fl → Sample fl
  pub line_of-lem : (name : String) (s : K6Sample fl) → line_of name s ≡ json_line name s

-- the sample's scenario is among its tags, where k6 puts it, if it has one
abbrev pub IsTagged : (fl : Float64) → K6Sample fl → Type 0
IsTagged fl s = lookup "scenario" s.metadata ≡ none

abbrev pub samples_of : {fl : Float64} → List (ℕ × K6Sample fl) → List (K6Sample fl)
samples_of [] = []
samples_of ((j, s) ∷ more) = s ∷ samples_of more

module _ (fl : Float64) (js : K6Json fl) where
  open fl use {F}

  -- the lines of some samples, each with the number that rand.Int64N returns, in turn
  unfoldable pub ingest_all :
      (String → ℤ) → String → List (ℕ × K6Sample fl) → Aggregator fl → Aggregator fl
  ingest_all atoi inst [] a = a
  ingest_all atoi inst ((j, s) ∷ more) a = elim s.metric [
    | none ↦ ingest_all atoi inst more a
    | some name ↦ ingest_all atoi inst more (ingest fl atoi j inst (js.line_of name s) a).0
  ]

  tag-json_line :
      (name : String) (s : K6Sample fl)
      → IsTagged fl s
      → tag "scenario" (json_line name s).tags ≡ sample_tag "scenario" s
  unfolding tag sample_tag
  tag-json_line name s tagged = ground (arith, tagged)

  -- the switch of `ingest` by the metric
  abbrev by_metric :
      (String → ℤ) → ℕ → String → Sample fl → Metric → Aggregator fl → Option (Aggregator fl)
  by_metric atoi j inst l Metric.http_reqs a = some (add_request fl (unix l.time) a)
  by_metric atoi j inst l Metric.http_req_duration a =
      some (add_duration fl j (unix l.time) l.value l.tags a)
  by_metric atoi j inst l Metric.http_req_failed a =
      some (if is_nonzero fl l.value then add_failure fl atoi l.time (unix l.time) l.tags a else a)
  by_metric atoi j inst l Metric.iterations a = some (add_iteration fl (unix l.time) a)
  by_metric atoi j inst l Metric.checks a =
      some (add_check fl (unix l.time) (is_nonzero fl l.value) l.tags a)
  by_metric atoi j inst l Metric.data_sent a = some (add_sent fl (unix l.time) l.value a)
  by_metric atoi j inst l Metric.data_received a = some (add_received fl (unix l.time) l.value a)
  by_metric atoi j inst l Metric.vus a =
      some (add_vus fl inst (unix l.time) (fl.truncate l.value) a)
  by_metric atoi j inst l Metric.other a = none

  count_sample-by_metric :
      (atoi : String → ℤ) (j : ℕ) (inst : String) (l : Sample fl) (a : Aggregator fl)
      → count_sample fl atoi j inst l a ≡ by_metric atoi j inst l (metric_of l.metric) a
  unfolding count_sample metric_of
  count_sample-by_metric atoi j inst l a = ground arith

  -- the aggregator after the switch
  abbrev after : Aggregator fl → Option (Aggregator fl) → Aggregator fl
  after a none = a
  after a (some a') = a'

  by_metric-run :
      (atoi : String → ℤ) (j : ℕ) (inst : String) (l : Sample fl) (c : Measure) (metric : Metric)
      (a : Aggregator fl)
      → of_run fl c (after a (by_metric atoi j inst l metric a)).totals
        ≡ of_run fl c a.totals + metric_amount fl c metric l.value
  unfolding add_request add_duration add_failure add_iteration add_check add_sent add_received
      add_vus observe
  by_metric-run atoi j inst l (counted c) Metric.http_reqs a = ground arith
  by_metric-run atoi j inst l (counted c) Metric.http_req_duration a = ground arith
  by_metric-run atoi j inst l (counted c) Metric.http_req_failed a = ground arith
  by_metric-run atoi j inst l (counted c) Metric.iterations a = ground arith
  by_metric-run atoi j inst l (counted c) Metric.checks a = ground arith
  by_metric-run atoi j inst l (counted c) Metric.data_sent a = ground arith
  by_metric-run atoi j inst l (counted c) Metric.data_received a = ground arith
  by_metric-run atoi j inst l (counted c) Metric.vus a = ground arith
  by_metric-run atoi j inst l (counted c) Metric.other a = ground arith
  by_metric-run atoi j inst l (in_bucket k) Metric.http_reqs a = ground arith
  by_metric-run atoi j inst l (in_bucket k) Metric.http_req_duration a =
      bump-lookup fl k (bucket_for fl l.value) 1 a.totals.total.buckets
  by_metric-run atoi j inst l (in_bucket k) Metric.http_req_failed a = ground arith
  by_metric-run atoi j inst l (in_bucket k) Metric.iterations a = ground arith
  by_metric-run atoi j inst l (in_bucket k) Metric.checks a = ground arith
  by_metric-run atoi j inst l (in_bucket k) Metric.data_sent a = ground arith
  by_metric-run atoi j inst l (in_bucket k) Metric.data_received a = ground arith
  by_metric-run atoi j inst l (in_bucket k) Metric.vus a = ground arith
  by_metric-run atoi j inst l (in_bucket k) Metric.other a = ground arith

  by_metric-bucket :
      (atoi : String → ℤ) (j : ℕ) (inst : String) (l : Sample fl) (c : Counter) (sec : ℤ)
      (metric : Metric) (a : Aggregator fl)
      → of_bucket fl c (bucket fl sec (after a (by_metric atoi j inst l metric a)).buckets)
        ≡ of_bucket fl c (bucket fl sec a.buckets)
          + (if eqb_ℤ sec (unix l.time) then metric_amount fl (counted c) metric l.value else 0)
  unfolding add_request add_duration add_failure add_iteration add_check add_sent add_received
      add_vus keep_duration
  by_metric-bucket atoi j inst l c sec Metric.http_reqs a =
      bucket-at_bucket fl c sec (unix l.time) (λ b. record b { requests = b.requests + 1 })
        a.buckets (tally 1 0 0 0 0 c) (ground arith)
  by_metric-bucket atoi j inst l c sec Metric.http_req_duration a =
      bucket-at_bucket fl c sec (unix l.time) (keep_duration fl j l.value) a.buckets 0
        (ground arith)
  by_metric-bucket atoi j inst l c sec Metric.http_req_failed a =
      elim (Bool-cases (is_nonzero fl l.value)) [
        | inl fails ↦ ground (
          arith,
          bucket-at_bucket fl c sec (unix l.time) (λ b. record b { failed = b.failed + 1 })
              a.buckets (tally 0 1 0 0 0 c) (ground arith),
        )
        | inr fine ↦ ground arith
      ]
  by_metric-bucket atoi j inst l c sec Metric.iterations a =
      bucket-at_bucket fl c sec (unix l.time) (λ b. record b { iterations = b.iterations + 1 })
        a.buckets (tally 0 0 1 0 0 c) (ground arith)
  by_metric-bucket atoi j inst l c sec Metric.checks a = elim (Bool-cases (is_nonzero fl l.value)) [
    | inl passes ↦ ground (
      arith,
      bucket-at_bucket fl c sec (unix l.time)
          (λ b. record b { checks_passed = b.checks_passed + 1 }) a.buckets (tally 0 0 0 1 0 c)
          (ground arith),
    )
    | inr fails ↦ ground (
      arith,
      bucket-at_bucket fl c sec (unix l.time)
          (λ b. record b { checks_failed = b.checks_failed + 1 }) a.buckets (tally 0 0 0 0 1 c)
          (ground arith),
    )
  ]
  by_metric-bucket atoi j inst l c sec Metric.data_sent a =
      bucket-at_bucket fl c sec (unix l.time)
        (λ b. record b { bytes_sent = fl.add b.bytes_sent l.value }) a.buckets (0) (ground arith)
  by_metric-bucket atoi j inst l c sec Metric.data_received a =
      bucket-at_bucket fl c sec (unix l.time)
        (λ b. record b { bytes_recv = fl.add b.bytes_recv l.value }) a.buckets (0) (ground arith)
  by_metric-bucket atoi j inst l c sec Metric.vus a =
      bucket-at_bucket fl c sec (unix l.time)
        (λ b. record b {
          vus = (set_instance_vus inst (fl.truncate l.value) a.gauge).current_vus;
          has_vus = true;
        })
        a.buckets (0) (ground arith)
  by_metric-bucket atoi j inst l c sec Metric.other a = ground arith

  stamp-run :
      (c : Measure) (ts : ℤ) (t : Totals fl) → of_run fl c (stamp fl ts ts t) ≡ of_run fl c t
  unfolding stamp
  stamp-run (counted c) ts t = ground arith
  stamp-run (in_bucket k) ts t = refl

  ingest-run :
      (atoi : String → ℤ) (j : ℕ) (inst name : String) (s : K6Sample fl) (c : Measure)
      (a : Aggregator fl)
      → s.metric ≡ some name
      → IsTagged fl s
      → of_run fl c (ingest fl atoi j inst (json_line name s) a).0.totals
        ≡ of_run fl c a.totals + sample_amount fl (λ t. true) c s
  unfolding ingest
  ingest-run atoi j inst name s c a on tagged =
      let l = json_line name s in
      let stamped : Aggregator fl = record a {
        latest = advance inst l.time a.latest;
        totals = stamp fl l.time l.time a.totals;
      } in
      let switched = count_sample-by_metric atoi j inst l stamped in
      let kept : of_run fl c stamped.totals ≡ of_run fl c a.totals = stamp-run c l.time a.totals in
      let result = by_metric-run atoi j inst l c (metric_of name) stamped in
      elim (Option-cases (by_metric atoi j inst l (metric_of name) stamped)) [
        | inl off ↦ ground (arith, tag-json_line name s tagged, switched, kept, result)
        | inr (a', done) ↦ ground (arith, tag-json_line name s tagged, switched, kept, result)
      ]

  ingest-bucket :
      (atoi : String → ℤ) (j : ℕ) (inst name : String) (s : K6Sample fl) (c : Counter) (sec : ℤ)
      (a : Aggregator fl)
      → s.metric ≡ some name
      → IsTagged fl s
      → of_bucket fl c (bucket fl sec (ingest fl atoi j inst (json_line name s) a).0.buckets)
        ≡ of_bucket fl c (bucket fl sec a.buckets) + sample_amount fl (eqb_ℤ sec) (counted c) s
  unfolding ingest
  ingest-bucket atoi j inst name s c sec a on tagged =
      let l = json_line name s in
      let stamped : Aggregator fl = record a {
        latest = advance inst l.time a.latest;
        totals = stamp fl l.time l.time a.totals;
      } in
      let switched = count_sample-by_metric atoi j inst l stamped in
      let result = by_metric-bucket atoi j inst l c sec (metric_of name) stamped in
      elim (Option-cases (by_metric atoi j inst l (metric_of name) stamped)) [
        | inl off ↦ ground (arith, tag-json_line name s tagged, switched, result)
        | inr (a', done) ↦ ground (arith, tag-json_line name s tagged, switched, result)
      ]

  pub ingest_all-run :
      (atoi : String → ℤ) (inst : String) (xs : List (ℕ × K6Sample fl)) (c : Measure)
      (a : Aggregator fl)
      → All (IsTagged fl) (samples_of xs)
      → of_run fl c (ingest_all atoi inst xs a).totals
        ≡ of_run fl c a.totals + samples_amount fl (λ t. true) c (samples_of xs)
  unfolding ingest_all
  ingest_all-run atoi inst [] c a tagged = omega arith
  ingest_all-run atoi inst ((j, s) ∷ more) c a tagged = elim (Option-cases s.metric) [
    | inl off ↦ ground (arith, ingest_all-run atoi inst more c a tagged.1)
    | inr (name, on) ↦
        let a' : Aggregator fl = (ingest fl atoi j inst (json_line name s) a).0 in
        ground (
          arith,
          js.line_of-lem name s,
          ingest-run atoi j inst name s c a on tagged.0,
          ingest_all-run atoi inst more c a' tagged.1,
        )
  ]

  pub ingest_all-bucket :
      (atoi : String → ℤ) (inst : String) (xs : List (ℕ × K6Sample fl)) (c : Counter) (sec : ℤ)
      (a : Aggregator fl)
      → All (IsTagged fl) (samples_of xs)
      → of_bucket fl c (bucket fl sec (ingest_all atoi inst xs a).buckets)
        ≡ of_bucket fl c (bucket fl sec a.buckets)
          + samples_amount fl (eqb_ℤ sec) (counted c) (samples_of xs)
  unfolding ingest_all
  ingest_all-bucket atoi inst [] c sec a tagged = omega arith
  ingest_all-bucket atoi inst ((j, s) ∷ more) c sec a tagged = elim (Option-cases s.metric) [
    | inl off ↦ ground (arith, ingest_all-bucket atoi inst more c sec a tagged.1)
    | inr (name, on) ↦
        let a' : Aggregator fl = (ingest fl atoi j inst (json_line name s) a).0 in
        ground (
          arith,
          js.line_of-lem name s,
          ingest-bucket atoi j inst name s c sec a on tagged.0,
          ingest_all-bucket atoi inst more c sec a' tagged.1,
        )
  ]
