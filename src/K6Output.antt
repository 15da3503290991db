-- ===== src/K6Output.antt =====
-- apps/k6-output/output.go: the k6 output extension, which folds an instance's samples into batches.
-- The maps of pointers that `fold` builds index the rows of a batch by their keys: a write through one
-- is a write to the row with that key, which is appended where there is none.
pub mod Sending
pub mod Counts
pub mod Delivery
pub mod Wire
pub mod Merged
pub mod Ingested
pub mod SameCounts
use open_synapse.Prelude.{
  ℕ, zero, suc, ◌+◌, ◌*◌, ◌^◌, ◌≤◌, ◌<◌, String, eq_iff, ◌≡◌, refl, sym, ap, ◌∙◌, ◌≢◌, ◌↔◌, ◌⊎◌,
  inl, inr, Bool, true, false, not, ◌&&◌, ◌||◌, Option, none, some, List, [], ◌∷◌, ◌++◌, map, arith,
  ltb, leb, ◌==◌, if◌then◌else◌, Bool-cases, Option-cases, length, All, Any,
}
use open_synapse.Prelude.Int.{ℤ, pos, negsuc, ◌+ℤ◌, ◌-ℤ◌, ◌≤ℤ◌, ◌<ℤ◌, ltb_ℤ, leb_ℤ, eqb_ℤ, scale}
use open_synapse.Prelude.Assoc.{
  Eq, string_eq, int_eq, Map, lookup, insert, remove, weigh, lookup-insert, eqb_ℤ_iff,
}
use text.Mathlib.Text.{◌==◌ as str_eq}
use open_synapse.Float64.{Float64, fmin, fmax}
use open_synapse.Engine.Errors.{RunError}
use open_synapse.Engine.Instances.{unix, unix_milli}
use open_synapse.Engine.Histogram.{bucket_of, bump}
use open_synapse.Engine.Aggregator.{control_scenario, endpoint_key, check_key}
use open_synapse.Engine.Aggregator.Samples.{is_nonzero}

-- a sample of k6, with its metric's name, if it has a metric, and its tags and metadata
pub record K6Sample (fl : Float64) : Type 0 where
  pub metric : Option String
  pub time : ℤ
  pub value : fl.F
  pub tags : Map String String
  pub metadata : Map String String

-- Hist
pub record Hist (fl : Float64) : Type 0 where
  pub buckets : Map ℤ ℕ
  pub count : ℕ
  pub sum : fl.F
  pub min : fl.F
  pub max : fl.F

-- Second
pub record Second (fl : Float64) : Type 0 where
  pub unix_time : ℤ
  pub requests : ℕ
  pub failed : ℕ
  pub iterations : ℕ
  pub checks_passed : ℕ
  pub checks_failed : ℕ
  pub bytes_sent : fl.F
  pub bytes_received : fl.F
  pub vus : Option ℤ
  pub durations : Option (Hist fl)

-- Endpoint
pub record Endpoint (fl : Float64) : Type 0 where
  pub method : String
  pub name : String
  pub failed : ℕ
  pub durations : Option (Hist fl)

-- Check
pub record Check : Type 0 where
  pub group : String
  pub name : String
  pub passes : ℕ
  pub fails : ℕ

-- Batch; the fields of an Error are those of the control plane's RunError
pub record Batch (fl : Float64) : Type 0 where
  pub sender : String
  pub through : ℤ
  pub seconds : List (Second fl)
  pub endpoints : List (Endpoint fl)
  pub checks : List Check
  pub errors : List RunError
  pub final : Bool

-- maxErrorsPerBatch
abbrev pub max_errors_per_batch : ℕ
max_errors_per_batch = 50

-- `tag`: a tag, or else the metadata of that name, "" where both are missing
unfoldable pub sample_tag : {fl : Float64} → String → K6Sample fl → String
sample_tag k s = elim (lookup k s.tags) [
  | some v ↦ v
  | none ↦ elim (lookup k s.metadata) [ some v ↦ v | none ↦ "" ]
]

-- the cases of the switch on the metric's name
pub data Metric : Type 0 where
  http_reqs http_req_duration http_req_failed iterations checks : Metric
  data_sent data_received vus other : Metric

unfoldable pub metric_of : String → Metric
metric_of name =
    if str_eq name "http_reqs"
    then http_reqs
    else if str_eq name "http_req_duration"
    then http_req_duration
    else if str_eq name "http_req_failed"
    then http_req_failed
    else if str_eq name "iterations"
    then iterations
    else if str_eq name "checks"
    then checks
    else if str_eq name "data_sent"
    then data_sent
    else if str_eq name "data_received"
    then data_received
    else if str_eq name "vus"
    then vus
    else other

-- the name of an endpoint or an error: the name, or the URL where it is empty
unfoldable pub sample_name : {fl : Float64} → K6Sample fl → String
sample_name s = if str_eq (sample_tag "name" s) "" then sample_tag "url" s else sample_tag "name" s

module _ (fl : Float64) where
  open fl use {F, of_int, add, lt, truncate, inf}

  -- newHist
  unfoldable pub new_hist : Hist fl
  new_hist = record {
    buckets = [];
    count = 0;
    sum = of_int (pos 0);
    min = inf;
    max = of_int (pos 0);
  }

  -- Hist.add; BucketOf is the control plane's bucketOf, line by line
  unfoldable pub hist_add : F → Hist fl → Hist fl
  hist_add v h =
      let v' = if lt v (of_int (pos 0)) then of_int (pos 0) else v in
      record {
        buckets = bump fl (bucket_of fl v') 1 h.buckets;
        count = h.count + 1;
        sum = add h.sum v';
        min = fmin fl h.min v';
        max = fmax fl h.max v';
      }

  -- a duration in a histogram that may not be there yet
  unfoldable pub with_duration : F → Option (Hist fl) → Option (Hist fl)
  with_duration v none = some (hist_add v new_hist)
  with_duration v (some h) = some (hist_add v h)

  unfoldable pub empty_second : ℤ → Second fl
  empty_second t = record {
    unix_time = t;
    requests = 0;
    failed = 0;
    iterations = 0;
    checks_passed = 0;
    checks_failed = 0;
    bytes_sent = of_int (pos 0);
    bytes_received = of_int (pos 0);
    vus = none;
    durations = none;
  }

  -- second(t), and a write through the pointer that it returns
  unfoldable pub at_second : ℤ → (Second fl → Second fl) → List (Second fl) → List (Second fl)
  at_second t f [] = f (empty_second t) ∷ []
  at_second t f (s ∷ ss) = if eqb_ℤ s.unix_time t then f s ∷ ss else s ∷ at_second t f ss

  -- endpoint(s), and a write through the pointer that it returns
  unfoldable pub at_row :
      String → String → (Endpoint fl → Endpoint fl) → List (Endpoint fl) → List (Endpoint fl)
  at_row method name f [] =
      f (record { method = method; name = name; failed = 0; durations = none }) ∷ []
  at_row method name f (e ∷ es) =
      if str_eq (endpoint_key e.method e.name) (endpoint_key method name)
      then f e ∷ es
      else e ∷ at_row method name f es

  -- the lookup of a check, and a write through the pointer
  unfoldable pub at_check_row : String → String → (Check → Check) → List Check → List Check
  at_check_row group name f [] =
      f (record { group = group; name = name; passes = 0; fails = 0 }) ∷ []
  at_check_row group name f (c ∷ cs) =
      if str_eq (check_key c.group c.name) (check_key group name)
      then f c ∷ cs
      else c ∷ at_check_row group name f cs

  -- the error of a failed request; `atoi` is strconv.Atoi, 0 where it fails
  unfoldable pub sample_error : (String → ℤ) → K6Sample fl → RunError
  sample_error atoi s = record {
    timestamp_ms = unix_milli s.time;
    status = atoi (sample_tag "status" s);
    method = sample_tag "method" s;
    name = sample_name s;
    url = sample_tag "url" s;
    error_code = sample_tag "error_code" s;
    message = sample_tag "error" s;
  }

  -- what a sample writes to its second, by its metric
  unfoldable pub fold_second : Metric → F → Second fl → Second fl
  fold_second http_reqs v s = record s { requests = s.requests + 1 }
  fold_second http_req_duration v s = record s { durations = with_duration v s.durations }
  fold_second http_req_failed v s =
      if is_nonzero fl v then record s { failed = s.failed + 1 } else s
  fold_second iterations v s = record s { iterations = s.iterations + 1 }
  fold_second checks v s =
      if is_nonzero fl v
      then record s { checks_passed = s.checks_passed + 1 }
      else record s { checks_failed = s.checks_failed + 1 }
  fold_second data_sent v s = record s { bytes_sent = add s.bytes_sent v }
  fold_second data_received v s = record s { bytes_received = add s.bytes_received v }
  fold_second vus v s = record s { vus = some (truncate v) }
  fold_second other v s = s

  -- what it writes to its endpoint, to its check, and to the errors
  unfoldable pub fold_endpoints : Metric → K6Sample fl → List (Endpoint fl) → List (Endpoint fl)
  fold_endpoints http_req_duration s es =
      at_row (sample_tag "method" s) (sample_name s)
        (λ e. record e { durations = with_duration s.value e.durations }) es
  fold_endpoints http_req_failed s es =
      if is_nonzero fl s.value
      then at_row (sample_tag "method" s) (sample_name s) (λ e. record e { failed = e.failed + 1 })
          es
      else es
  fold_endpoints _ s es = es

  unfoldable pub fold_checks : Metric → K6Sample fl → List Check → List Check
  fold_checks checks s cs =
      at_check_row (sample_tag "group" s) (sample_tag "check" s)
        (λ c.
          if is_nonzero fl s.value
          then record c { passes = c.passes + 1 }
          else record c { fails = c.fails + 1 })
        cs
  fold_checks _ s cs = cs

  unfoldable pub fold_errors : (String → ℤ) → Metric → K6Sample fl → List RunError → List RunError
  fold_errors atoi http_req_failed s errors =
      if is_nonzero fl s.value && ltb (length errors) max_errors_per_batch
      then errors ++ sample_error atoi s ∷ []
      else errors
  fold_errors atoi _ s errors = errors

  -- the body of the loop of `fold`
  unfoldable pub fold_sample : (String → ℤ) → K6Sample fl → Batch fl → Batch fl
  fold_sample atoi s b = elim s.metric [
    | none ↦ b
    | some name ↦
        let metric = metric_of name in
        if str_eq (sample_tag "scenario" s) control_scenario then b else record b {
          seconds = at_second (unix s.time) (fold_second metric s.value) b.seconds;
          endpoints = fold_endpoints metric s b.endpoints;
          checks = fold_checks metric s b.checks;
          errors = fold_errors atoi metric s b.errors;
        }
  ]

  -- fold
  unfoldable pub fold : (String → ℤ) → List (K6Sample fl) → Batch fl → Batch fl
  fold atoi [] b = b
  fold atoi (s ∷ ss) b = fold atoi ss (fold_sample atoi s b)
