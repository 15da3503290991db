-- ===== src/Examples/K6Output.antt =====
-- The theorems on the output extension of k6, at concrete samples and flushes.
use open_synapse.Prelude.Assoc.{lookup}
use open_synapse.K6Output.SameCounts.{merge-fold}
use open_synapse.K6Output.Merged.{of_run}
use open_synapse.K6Output.Wire.{decode}
use open_synapse.K6Output.Ingested.{K6Json, samples_of, ingest_all}
use open_synapse.K6Output.Sending.{
  Output, no_answer, flushed, answered, is_taken, is_rejected, is_rejection, pending_batch,
  empty_batch,
}
use open_synapse.Prelude.{◌≡◌, refl, none, some, true, false, List, [], ◌∷◌, ℕ, String, ◌+◌}
use open_synapse.Prelude.Int.{ℤ, pos}
use open_synapse.Engine.Aggregator.{Aggregator, bucket, new_aggregator}
use open_synapse.Engine.Aggregator.Balance.{of_bucket, Counter}
use open_synapse.Engine.Aggregator.Batches.{merge}
use open_synapse.K6Output.{K6Sample, sample_tag, metric_of}
use open_synapse.K6Output.Counts.{counted, in_bucket}
use open_synapse.K6Output.Delivery.{
  flush_all-delivers, flush_lost_answer, Round, received_amount, flush_all, waiting_amount,
}
use open_synapse.Examples.Numbers.{whole_numbers}
use open_synapse.Examples.Engine.Values.{seconds}

abbrev no_number : String → ℤ
no_number s = pos 0

abbrev request_sample : ℕ → K6Sample whole_numbers
request_sample t = record {
  metric = some "http_reqs";
  time = seconds t;
  value = pos 1;
  tags = ("scenario", "default") ∷ ("method", "GET") ∷ ("name", "/") ∷ [];
  metadata = [];
}

abbrev slow_sample : ℕ → K6Sample whole_numbers
slow_sample t = record (request_sample t) { metric = some "http_req_duration"; value = pos 250 }

abbrev fresh_output : Output whole_numbers
fresh_output = record { instance_name = "k6-1"; pending = none }

-- the output of k6 that copies the tags
abbrev copied : K6Json whole_numbers
copied = record {
  line_of = λ name s. record {
    kind = "Point";
    metric = name;
    time = s.time;
    value = s.value;
    tags = s.tags;
  };
  line_of-lem = λ name s. refl;
}

abbrev two_samples : List (ℕ × K6Sample whole_numbers)
two_samples = (0, request_sample 100) ∷ (0, slow_sample 100) ∷ []

abbrev fresh_totals : Aggregator whole_numbers
fresh_totals = new_aggregator whole_numbers (seconds 100)

merge-fold_example :
    let cluster =
      merge whole_numbers
        (decode whole_numbers
          (flushed whole_numbers no_number (seconds 102) (samples_of two_samples) fresh_output))
        fresh_totals in
    let local = ingest_all whole_numbers copied no_number "k6-1" two_samples fresh_totals in
    (of_run whole_numbers (in_bucket (pos 50000)) cluster.totals
      ≡ of_run whole_numbers (in_bucket (pos 50000)) local.totals)
    × (of_bucket whole_numbers Counter.requests (bucket whole_numbers (pos 100) cluster.buckets)
        ≡ of_bucket whole_numbers Counter.requests (bucket whole_numbers (pos 100) local.buckets))
unfolding lookup
merge-fold_example =
    merge-fold whole_numbers copied no_number "k6-1" (seconds 102) two_samples fresh_totals
      (in_bucket (pos 50000)) Counter.requests (pos 100) (refl, (refl, tt))

-- a flush that gets no answer, and the next one, which is taken
abbrev retried : List (Round whole_numbers)
retried =
    record {
      now = seconds 101;
      samples = request_sample 100 ∷ [];
      attempt = record { processed = false; answer = no_answer };
    }
    ∷ record {
      now = seconds 102;
      samples = request_sample 101 ∷ [];
      attempt = record { processed = true; answer = answered 204 };
    }
    ∷ []

flush_all-delivers_example :
    received_amount whole_numbers no_number
        (λ t. true)
        (counted Counter.requests)
        (flush_all whole_numbers no_number retried fresh_output).1
      + waiting_amount whole_numbers no_number
          (λ t. true)
          (counted Counter.requests)
          (flush_all whole_numbers no_number retried fresh_output).0
    ≡ 2
unfolding is_taken is_rejected is_rejection sample_tag lookup metric_of pending_batch empty_batch
flush_all-delivers_example =
    flush_all-delivers whole_numbers no_number (λ t. true) (counted Counter.requests) retried
      fresh_output ((refl, refl), ((refl, refl), tt))

flush_lost_answer_example :
    received_amount whole_numbers no_number
      (λ t. true)
      (counted Counter.requests)
      (flush_all whole_numbers no_number
        (record {
          now = seconds 101;
          samples = request_sample 100 ∷ [];
          attempt = record { processed = true; answer = no_answer };
        }
          ∷ record {
            now = seconds 102;
            samples = [];
            attempt = record { processed = true; answer = answered 204 };
          }
          ∷ [])
        fresh_output).1
    ≡ 2
unfolding sample_tag lookup metric_of
flush_lost_answer_example =
    flush_lost_answer whole_numbers no_number (λ t. true) (counted Counter.requests) (seconds 101)
      (seconds 102) (request_sample 100 ∷ []) fresh_output refl
