-- ===== src/Examples/Engine/Metrics.antt =====
-- The theorems on the histogram and the aggregator, at concrete inputs.
use open_synapse.Engine.Instances.{emit_up_to, unix}
use open_synapse.Engine.Aggregator.Samples.{ingest, count_sample, add_request, stamp}
use open_synapse.Engine.Aggregator.Watermark.{emit_up_to-lag}
use open_synapse.Engine.Aggregator.Bounds.{receive_all-IsBounded}
use open_synapse.Engine.Histogram.Percentiles.{percentile-observe_all, IsWithin, IsRecorded}
use open_synapse.Engine.Aggregator.Emission.{snapshots, emitted_before, rounds}
use open_synapse.Engine.Aggregator.Conservation.{is_early}
use open_synapse.Engine.Aggregator.{Aggregator, tag, new_aggregator}
use open_synapse.Engine.Aggregator.Limits.{IsBounded}
use open_synapse.Engine.Aggregator.Streams.{
  receive_all, nothing_yet, line, seconds_after, snapshots_seconds, receive,
}
use open_synapse.Engine.Histogram.{observe_all, new_histogram, percentile}
use open_synapse.Prelude.{
  String, ◌≡◌, refl, none, some, List, [], ◌∷◌, arith, ◌⊎◌, false, map, if◌then◌else◌,
}
use open_synapse.Prelude.Int.{ℤ, pos, ◌+ℤ◌, ◌≤ℤ◌, ◌<ℤ◌, scale, max_ℤ, leb_ℤ}
use open_synapse.Prelude.Assoc.{Map, lookup, sum_by, int_eq, string_eq}
use open_synapse.Examples.Numbers.{whole_numbers, whole_sorting}
use open_synapse.Examples.Engine.Values.{seconds, late_request, request_at}

abbrev samples : List ℤ
samples = pos 3 ∷ pos 12 ∷ pos 7 ∷ []

percentile-observe_all_example :
    let h = observe_all whole_numbers samples (new_histogram whole_numbers) in
    (h.count ≡ 3)
    × (sum_by (λ n. n) h.buckets ≡ h.count)
    × IsWithin whole_numbers h.min h.max samples
    × ((h.min ≡ whole_numbers.inf) ⊎ IsRecorded whole_numbers h.min samples)
    × ((h.max ≡ pos 0) ⊎ IsRecorded whole_numbers h.max samples)
    × (h.min ≤ℤ percentile whole_numbers whole_sorting h (pos 0))
    × (percentile whole_numbers whole_sorting h (pos 0) ≤ℤ h.max)
percentile-observe_all_example =
    percentile-observe_all whole_numbers whole_sorting (pos 3) (pos 12 ∷ pos 7 ∷ []) (pos 0)

-- Atoi, for the statuses of the examples
abbrev status_of : String → ℤ
status_of s = pos 200

receive_all-IsBounded_example :
    IsBounded whole_numbers whole_sorting status_of
      (receive_all whole_numbers whole_sorting status_of late_request
        (nothing_yet whole_numbers whole_sorting status_of (pos 0))).agg
receive_all-IsBounded_example =
    receive_all-IsBounded whole_numbers whole_sorting status_of (pos 0) late_request

abbrev two_seconds : Aggregator whole_numbers
two_seconds =
    (receive_all whole_numbers whole_sorting status_of
      (line 0 "i1" (request_at 100) ∷ line 0 "i1" (request_at 103) ∷ [])
      (nothing_yet whole_numbers whole_sorting status_of (pos 0))).agg

not_early : is_early whole_numbers whole_sorting two_seconds ≡ false
unfolding receive_all receive ingest tag lookup count_sample add_request nothing_yet new_aggregator
    stamp
not_early = refl

snapshots_seconds_example :
    let (points, a') = snapshots whole_numbers whole_sorting (pos 101) two_seconds in
    let last = emitted_before whole_numbers whole_sorting two_seconds in
    (map (λ p. p.timestamp_ms) points
      ≡ map
          (λ sec. scale sec 1000)
          (seconds_after last (rounds whole_numbers whole_sorting two_seconds (pos 101))))
    × (a'.last_emitted ≡ max_ℤ last (pos 101))
    × ((if leb_ℤ (pos 100) a'.last_emitted then lookup (pos 100) a'.buckets else none) ≡ none)
snapshots_seconds_example =
    snapshots_seconds whole_numbers whole_sorting (pos 101) two_seconds (pos 100) not_early

abbrev two_instances : Map String ℤ
two_instances = ("i1", seconds 103) ∷ ("i2", seconds 100) ∷ []

second_found : lookup "i2" two_instances ≡ some (seconds 100)
unfolding lookup
second_found = refl

emit_up_to-lag_example :
    (emit_up_to two_instances (seconds 110) +ℤ pos 2 ≤ℤ seconds 110)
    × ((emit_up_to two_instances (seconds 110) <ℤ unix (seconds 100))
        ⊎ (emit_up_to two_instances (seconds 110) +ℤ pos 30 ≤ℤ seconds 110))
emit_up_to-lag_example =
    emit_up_to-lag two_instances (seconds 110) "i2" (seconds 100) (omega arith, (omega arith, tt))
      second_found
