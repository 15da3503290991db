-- ===== src/K6Output/Wire.antt =====
-- The JSON of a batch, between apps/k6-output/output.go and
-- apps/control-plane/internal/engine/ingest.go: both ends name the same fields.
use open_synapse.Prelude.{Option, none, some, map}
use open_synapse.Prelude.Assoc.{string_eq, int_eq}
use open_synapse.Float64.{Float64}
use open_synapse.K6Output.{Hist, Second, Batch}
use open_synapse.Engine.Aggregator.Batches.{IngestHist, IngestSecond, IngestBatch}

module _ (fl : Float64) where
  abbrev pub decode_hist : Hist fl → IngestHist fl
  decode_hist h = record {
    buckets = h.buckets;
    count = h.count;
    sum = h.sum;
    min = h.min;
    max = h.max;
  }

  abbrev pub decode_durations : Option (Hist fl) → Option (IngestHist fl)
  decode_durations none = none
  decode_durations (some h) = some (decode_hist h)

  abbrev pub decode_second : Second fl → IngestSecond fl
  decode_second s = record {
    second = s.unix_time;
    requests = s.requests;
    failed = s.failed;
    iterations = s.iterations;
    checks_passed = s.checks_passed;
    checks_failed = s.checks_failed;
    bytes_sent = s.bytes_sent;
    bytes_received = s.bytes_received;
    vus = s.vus;
    durations = decode_durations s.durations;
  }

  abbrev pub decode : Batch fl → IngestBatch fl
  decode b = record {
    sender = b.sender;
    through = b.through;
    seconds = map decode_second b.seconds;
    endpoints =
        map
          (λ e. record {
            method = e.method;
            name = e.name;
            failed = e.failed;
            durations = decode_durations e.durations;
          })
          b.endpoints;
    checks =
        map (λ c. record { group = c.group; name = c.name; passes = c.passes; fails = c.fails })
          b.checks;
    errors = b.errors;
    final = b.final;
  }
