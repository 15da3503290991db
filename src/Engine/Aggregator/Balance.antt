-- ===== src/Engine/Aggregator/Balance.antt =====
-- The per-second points and the run's totals count the same samples.
use open_synapse.Engine.Instances.{set_instance_vus, unix}
use open_synapse.Prelude.{
  ℕ, ◌+◌, String, ◌≡◌, refl, ◌∙◌, Bool, true, false, Option, none, some, List, [], ◌∷◌, arith,
  if◌then◌else◌,
}
use open_synapse.Prelude.Int.{ℤ}
use open_synapse.Prelude.Assoc.{
  string_eq, int_eq, Map, Unique, sum_by, Unique-insert, sum_by-insert,
}
use text.Mathlib.Text.{◌==◌ as str_eq}
use mathlib.Core.Path.{subst}
use open_synapse.Float64.{Float64}
use open_synapse.Engine.Aggregator.{Bucket, empty_bucket, Totals, Aggregator, bucket, at_bucket}
use open_synapse.Engine.Aggregator.Samples.{
  Sample, keep_duration, is_nonzero, add_request, add_duration, add_failure, add_iteration,
  add_check, add_sent, add_received, add_vus, count_sample,
}
use open_synapse.Engine.Aggregator.Emission.{MetricPoint}

-- The counters that both keep.
pub data Counter : Type 0 where
  requests failed iterations passed unpassed : Counter

-- an amount for each counter
abbrev pub tally : ℕ → ℕ → ℕ → ℕ → ℕ → Counter → ℕ
tally r f i p u requests = r
tally r f i p u failed = f
tally r f i p u iterations = i
tally r f i p u passed = p
tally r f i p u unpassed = u

module _ (fl : Float64) where
  abbrev pub of_bucket : Counter → Bucket fl → ℕ
  of_bucket requests b = b.requests
  of_bucket failed b = b.failed
  of_bucket iterations b = b.iterations
  of_bucket passed b = b.checks_passed
  of_bucket unpassed b = b.checks_failed

  abbrev pub of_totals : Counter → Totals fl → ℕ
  of_totals requests t = t.requests
  of_totals failed t = t.failed
  of_totals iterations t = t.iterations
  of_totals passed t = t.checks_pass
  of_totals unpassed t = t.checks_fail

  abbrev pub of_point : Counter → MetricPoint fl → ℕ
  of_point requests p = p.requests
  of_point failed p = p.failed
  of_point iterations p = p.iterations
  of_point passed p = p.checks_passed
  of_point unpassed p = p.checks_failed

  abbrev pub sum_points : Counter → List (MetricPoint fl) → ℕ
  sum_points c [] = 0
  sum_points c (p ∷ ps) = of_point c p + sum_points c ps

  -- What the totals count is in the buckets, or was emitted or dropped (`gone`).
  pub record IsBalanced (gone : Counter → ℕ) (a : Aggregator fl) : Type 0 where
    pub keyed : Unique a.buckets
    pub balance : (c : Counter) → of_totals c a.totals ≡ sum_by (of_bucket c) a.buckets + gone c

  -- A write to one bucket changes the sum by what it changes in that bucket.
  pub sum_at_bucket :
      (c : Counter) (sec : ℤ) (f : Bucket fl → Bucket fl) (m : Map ℤ (Bucket fl)) (d : ℕ)
      → of_bucket c (f (bucket fl sec m)) ≡ of_bucket c (bucket fl sec m) + d
      → sum_by (of_bucket c) (at_bucket fl sec f m) ≡ sum_by (of_bucket c) m + d
  unfolding at_bucket bucket empty_bucket
  sum_at_bucket c sec f m d h =
      ground (arith, sum_by-insert (of_bucket c) sec (f (bucket fl sec m)) m)

  Unique-at_bucket :
      (sec : ℤ) (f : Bucket fl → Bucket fl) (m : Map ℤ (Bucket fl))
      → Unique m
      → Unique (at_bucket fl sec f m)
  unfolding at_bucket
  Unique-at_bucket sec f m u = Unique-insert sec (f (bucket fl sec m)) m u

  -- The rule for a write that adds the same to a bucket and to the totals.
  pub IsBalanced-write :
      (gone : Counter → ℕ) (a a' : Aggregator fl) (sec : ℤ) (f : Bucket fl → Bucket fl)
      (d : Counter → ℕ)
      → a'.buckets ≡ at_bucket fl sec f a.buckets
      → ((c : Counter) → of_totals c a'.totals ≡ of_totals c a.totals + d c)
      → ((c : Counter) (b : Bucket fl) → of_bucket c (f b) ≡ of_bucket c b + d c)
      → IsBalanced gone a
      → IsBalanced gone a'
  IsBalanced-write gone a a' sec f d eb et ef h = record {
    keyed = rw eb (Unique-at_bucket sec f a.buckets h.keyed);
    balance = λ c. rw eb (
        omega (
          arith,
          et c,
          h.balance c,
          sum_at_bucket c sec f a.buckets (d c) (ef c (bucket fl sec a.buckets)),
        ));
  }

  add_request-IsBalanced :
      (gone : Counter → ℕ) (sec : ℤ) (a : Aggregator fl)
      → IsBalanced gone a
      → IsBalanced gone (add_request fl sec a)
  unfolding add_request
  add_request-IsBalanced gone sec a h =
      IsBalanced-write gone a (add_request fl sec a) sec
        (λ b. record b { requests = b.requests + 1 }) (tally 1 0 0 0 0) refl (λ c. ground arith)
        (λ c b. ground arith) h

  add_iteration-IsBalanced :
      (gone : Counter → ℕ) (sec : ℤ) (a : Aggregator fl)
      → IsBalanced gone a
      → IsBalanced gone (add_iteration fl sec a)
  unfolding add_iteration
  add_iteration-IsBalanced gone sec a h =
      IsBalanced-write gone a (add_iteration fl sec a) sec
        (λ b. record b { iterations = b.iterations + 1 }) (tally 0 0 1 0 0) refl (λ c. ground arith)
        (λ c b. ground arith) h

  add_duration-IsBalanced :
      (gone : Counter → ℕ) (j : ℕ) (sec : ℤ) (v : fl.F) (tags : Map String String)
      (a : Aggregator fl)
      → IsBalanced gone a
      → IsBalanced gone (add_duration fl j sec v tags a)
  unfolding add_duration keep_duration
  add_duration-IsBalanced gone j sec v tags a h =
      IsBalanced-write gone a (add_duration fl j sec v tags a) sec (keep_duration fl j v)
        (tally 0 0 0 0 0) refl (λ c. ground arith) (λ c b. ground arith) h

  add_failure-IsBalanced :
      (gone : Counter → ℕ) (atoi : String → ℤ) (ts sec : ℤ) (tags : Map String String)
      (a : Aggregator fl)
      → IsBalanced gone a
      → IsBalanced gone (add_failure fl atoi ts sec tags a)
  unfolding add_failure
  add_failure-IsBalanced gone atoi ts sec tags a h =
      IsBalanced-write gone a (add_failure fl atoi ts sec tags a) sec
        (λ b. record b { failed = b.failed + 1 }) (tally 0 1 0 0 0) refl (λ c. ground arith)
        (λ c b. ground arith) h

  add_check-IsBalanced :
      (gone : Counter → ℕ) (sec : ℤ) (ok : Bool) (tags : Map String String) (a : Aggregator fl)
      → IsBalanced gone a
      → IsBalanced gone (add_check fl sec ok tags a)
  unfolding add_check
  add_check-IsBalanced gone sec true tags a h =
      IsBalanced-write gone a (add_check fl sec true tags a) sec
        (λ b. record b { checks_passed = b.checks_passed + 1 }) (tally 0 0 0 1 0) refl
        (λ c. ground arith) (λ c b. ground arith) h
  add_check-IsBalanced gone sec false tags a h =
      IsBalanced-write gone a (add_check fl sec false tags a) sec
        (λ b. record b { checks_failed = b.checks_failed + 1 }) (tally 0 0 0 0 1) refl
        (λ c. ground arith) (λ c b. ground arith) h

  add_sent-IsBalanced :
      (gone : Counter → ℕ) (sec : ℤ) (v : fl.F) (a : Aggregator fl)
      → IsBalanced gone a
      → IsBalanced gone (add_sent fl sec v a)
  unfolding add_sent
  add_sent-IsBalanced gone sec v a h =
      IsBalanced-write gone a (add_sent fl sec v a) sec
        (λ b. record b { bytes_sent = fl.add b.bytes_sent v }) (tally 0 0 0 0 0) refl
        (λ c. ground arith) (λ c b. ground arith) h

  add_received-IsBalanced :
      (gone : Counter → ℕ) (sec : ℤ) (v : fl.F) (a : Aggregator fl)
      → IsBalanced gone a
      → IsBalanced gone (add_received fl sec v a)
  unfolding add_received
  add_received-IsBalanced gone sec v a h =
      IsBalanced-write gone a (add_received fl sec v a) sec
        (λ b. record b { bytes_recv = fl.add b.bytes_recv v }) (tally 0 0 0 0 0) refl
        (λ c. ground arith) (λ c b. ground arith) h

  pub add_vus-IsBalanced :
      (gone : Counter → ℕ) (inst : String) (sec n : ℤ) (a : Aggregator fl)
      → IsBalanced gone a
      → IsBalanced gone (add_vus fl inst sec n a)
  unfolding add_vus
  add_vus-IsBalanced gone inst sec n a h =
      let g = set_instance_vus inst n a.gauge in
      IsBalanced-write gone a (add_vus fl inst sec n a) sec
        (λ b. record b { vus = g.current_vus; has_vus = true }) (tally 0 0 0 0 0) refl
        (λ c. ground arith) (λ c b. ground arith) h

  -- A state with the same buckets and counters is balanced the same way.
  pub IsBalanced-same :
      (gone : Counter → ℕ) (a a' : Aggregator fl)
      → a'.buckets ≡ a.buckets
      → ((c : Counter) → of_totals c a'.totals ≡ of_totals c a.totals)
      → IsBalanced gone a
      → IsBalanced gone a'
  IsBalanced-same gone a a' eb et h = record {
    keyed = rw eb h.keyed;
    balance = λ c. rw eb (et c ∙ h.balance c);
  }

  pub if-IsBalanced :
      (gone : Counter → ℕ) (t : Bool) (a b : Aggregator fl)
      → IsBalanced gone a
      → IsBalanced gone b
      → IsBalanced gone (if t then a else b)
  if-IsBalanced gone true a b ha hb = ha
  if-IsBalanced gone false a b ha hb = hb

  -- A state that may be absent.
  pub record AllBalanced (gone : Counter → ℕ) (o : Option (Aggregator fl)) : Type 0 where
    pub at : (a : Aggregator fl) → o ≡ some a → IsBalanced gone a

  absent : (gone : Counter → ℕ) → AllBalanced gone none
  absent gone = record { at = λ a e. cc }

  if_some :
      (gone : Counter → ℕ) (t : Bool) (a : Aggregator fl) (o : Option (Aggregator fl))
      → IsBalanced gone a
      → AllBalanced gone o
      → AllBalanced gone (if t then some a else o)
  if_some gone true a o h r = record { at = λ b e. subst (IsBalanced gone) (cc e) h }
  if_some gone false a o h r = r

  pub count_sample-IsBalanced :
      (gone : Counter → ℕ) (atoi : String → ℤ) (j : ℕ) (inst : String) (l : Sample fl)
      (a : Aggregator fl)
      → IsBalanced gone a
      → AllBalanced gone (count_sample fl atoi j inst l a)
  unfolding count_sample
  count_sample-IsBalanced gone atoi j inst l a h =
      let sec = unix l.time in
      if_some gone (str_eq l.metric "http_reqs") _ _ (add_request-IsBalanced gone sec a h) (
        if_some gone (str_eq l.metric "http_req_duration") _ _
          (add_duration-IsBalanced gone j sec l.value l.tags a h)
          (if_some gone (str_eq l.metric "http_req_failed") _ _
            (if-IsBalanced gone (is_nonzero fl l.value) _ _
              (add_failure-IsBalanced gone atoi l.time sec l.tags a h) h)
            (if_some gone (str_eq l.metric "iterations") _ _ (add_iteration-IsBalanced gone sec a h)
              (if_some gone (str_eq l.metric "checks") _ _
                (add_check-IsBalanced gone sec (is_nonzero fl l.value) l.tags a h)
                (if_some gone (str_eq l.metric "data_sent") _ _
                  (add_sent-IsBalanced gone sec l.value a h)
                  (if_some gone (str_eq l.metric "data_received") _ _
                    (add_received-IsBalanced gone sec l.value a h)
                    (if_some gone (str_eq l.metric "vus") _ _
                      (add_vus-IsBalanced gone inst sec (fl.truncate l.value) a h)
                      (absent gone))))))))
