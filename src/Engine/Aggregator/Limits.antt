-- ===== src/Engine/Aggregator/Limits.antt =====
-- What a run keeps in memory is bounded, whatever arrives, and the VU gauge.
use open_synapse.Engine.Instances.{VuGauge, set_instance_vus, unix, sum_vus}
use open_synapse.Engine.Errors.{ErrorLog, record_error, RunError, max_error_samples}
use open_synapse.Prelude.{
  ℕ, ◌+◌, ◌-◌, ◌≤◌, String, ◌≡◌, sym, ◌⊎◌, inl, inr, Bool, true, false, Option, none, some, List,
  [], ◌∷◌, ◌++◌, arith, leb, if◌then◌else◌, Bool-cases, Option-cases, length, length-append,
  length-drop,
}
use open_synapse.Prelude.Int.{ℤ, ◌≤ℤ◌}
use open_synapse.Prelude.Assoc.{
  string_eq, int_eq, Map, lookup, insert, lookup-insert, length-insert,
}
use text.Mathlib.Text.{◌==◌ as str_eq}
use mathlib.Core.Path.{subst}
use open_synapse.Float64.{Float64}
use open_synapse.Engine.Histogram.{Sorting}
use open_synapse.Engine.Aggregator.{
  max_endpoints, tag, endpoint_name, endpoint_key, EndpointAgg, Aggregator, fresh_endpoint,
  at_endpoint,
}
use open_synapse.Engine.Aggregator.Samples.{
  Sample, is_nonzero, error_of, add_request, add_duration, add_failure, add_iteration, add_check,
  add_sent, add_received, add_vus, count_sample,
}
use open_synapse.Engine.Aggregator.Batches.{IngestEndpoint, merge_endpoints, merge_errors}

-- At most 50 errors are kept, and at most 50 are waiting to be taken.
abbrev pub IsShort : ErrorLog → Type 0
IsShort log = (length log.errors ≤ max_error_samples) × (length log.new_errors ≤ max_error_samples)

IsShort-record_error : (e : RunError) (log : ErrorLog) → IsShort log → IsShort (record_error e log)
unfolding record_error
IsShort-record_error e log h =
    let all = log.errors ++ e ∷ [] in
    ground (
      arith,
      length-append log.errors (e ∷ []),
      length-append log.new_errors (e ∷ []),
      length-drop (length all - max_error_samples) all,
    )

-- The gauge shows the sum over the instances, and its peak is never below it.
abbrev pub IsGauge : VuGauge → Type 0
IsGauge g = (g.current_vus ≡ sum_vus g.instance_vus) × (g.current_vus ≤ℤ g.peak_vus)

IsGauge-set_instance_vus :
    (inst : String) (n : ℤ) (g : VuGauge) → IsGauge g → IsGauge (set_instance_vus inst n g)
unfolding set_instance_vus
IsGauge-set_instance_vus inst n g h = ground arith

module _ (fl : Float64) (lib : Sorting fl) (atoi : String → ℤ) where
  -- Up to 200 endpoints, and one more for all others.
  abbrev pub IsFew : Map String (EndpointAgg fl) → Type 0
  IsFew m =
      (length m ≤ max_endpoints)
      ⊎ ((length m ≡ max_endpoints + 1) × (e : EndpointAgg fl) × (lookup "(other)" m ≡ some e))

  IsFew-update :
      (key : String) (old new : EndpointAgg fl) (m : Map String (EndpointAgg fl))
      → lookup key m ≡ some old
      → IsFew m
      → IsFew (insert key new m)
  IsFew-update key old new m found (inl h) = inl (ground (arith, length-insert key new m))
  IsFew-update key old new m found (inr (n, e, other)) = inr (
    ground (arith, length-insert key new m),
    if str_eq key "(other)" then new else e,
    ground (arith, lookup-insert key "(other)" new m),
  )

  -- The first endpoint beyond the limit opens the entry for all others.
  IsFew-fold :
      (new : EndpointAgg fl) (m : Map String (EndpointAgg fl))
      → leb max_endpoints (length m) ≡ true
      → lookup "(other)" m ≡ none
      → IsFew m
      → IsFew (insert "(other)" new m)
  IsFew-fold new m full none' (inr (n, e, other)) = cc (none', other)
  IsFew-fold new m full none' (inl h) =
      inr (ground (arith, length-insert "(other)" new m), new, simp lookup-insert)

  IsFew-full :
      (method name : String) (f : EndpointAgg fl → EndpointAgg fl) (m : Map String (EndpointAgg fl))
      → lookup (endpoint_key method name) m ≡ none
      → leb max_endpoints (length m) ≡ true
      → IsFew m
      → IsFew (at_endpoint fl method name f m)
  unfolding at_endpoint
  IsFew-full method name f m new full h = elim (Option-cases (lookup "(other)" m)) [
    | inr (e, found) ↦
        let eq : at_endpoint fl method name f m ≡ insert "(other)" (f e) m = ground arith in
        subst IsFew (sym eq) (IsFew-update "(other)" e (f e) m found h)
    | inl none' ↦
        let other = f (fresh_endpoint fl "" "(other)") in
        let eq : at_endpoint fl method name f m ≡ insert "(other)" other m = ground arith in
        subst IsFew (sym eq) (IsFew-fold other m full none' h)
  ]

  IsFew-at_endpoint :
      (method name : String) (f : EndpointAgg fl → EndpointAgg fl) (m : Map String (EndpointAgg fl))
      → IsFew m
      → IsFew (at_endpoint fl method name f m)
  unfolding at_endpoint
  IsFew-at_endpoint method name f m h =
      let key = endpoint_key method name in
      elim (Option-cases (lookup key m)) [
        | inr (e, found) ↦
            let eq : at_endpoint fl method name f m ≡ insert key (f e) m = ground arith in
            subst IsFew (sym eq) (IsFew-update key e (f e) m found h)
        | inl new ↦
            let made = f (fresh_endpoint fl method name) in
            elim (Bool-cases (leb max_endpoints (length m))) [
              | inr room ↦
                  let eq : at_endpoint fl method name f m ≡ insert key made m = ground arith in
                  subst IsFew (sym eq) (inl (ground (arith, length-insert key made m)))
              | inl full ↦ IsFew-full method name f m new full h
            ]
      ]

  pub IsFew-merge_endpoints :
      (xs : List (IngestEndpoint fl)) (m : Map String (EndpointAgg fl))
      → IsFew m
      → IsFew (merge_endpoints fl xs m)
  unfolding merge_endpoints
  IsFew-merge_endpoints [] m h = h
  IsFew-merge_endpoints (x ∷ xs) m h =
      IsFew-merge_endpoints xs _ (IsFew-at_endpoint x.method x.name _ m h)

  pub IsShort-merge_errors :
      (es : List RunError) (log : ErrorLog) → IsShort log → IsShort (merge_errors fl es log)
  unfolding merge_errors
  IsShort-merge_errors [] log h = h
  IsShort-merge_errors (e ∷ es) log h =
      IsShort-merge_errors es (record_error e log) (IsShort-record_error e log h)

  -- What bounds an aggregator.
  pub record IsBounded (a : Aggregator fl) : Type 0 where
    pub few : IsFew a.endpoints
    pub short : IsShort a.log
    pub gauge : IsGauge a.gauge

  pub IsBounded-vus :
      (inst : String) (sec n : ℤ) (a : Aggregator fl)
      → IsBounded a
      → IsBounded (add_vus fl inst sec n a)
  unfolding add_vus
  IsBounded-vus inst sec n a h = record {
    few = h.few;
    short = h.short;
    gauge = IsGauge-set_instance_vus inst n a.gauge h.gauge;
  }

  IsBounded-failure :
      (ts sec : ℤ) (tags : Map String String) (a : Aggregator fl)
      → IsBounded a
      → IsBounded (add_failure fl atoi ts sec tags a)
  unfolding add_failure
  IsBounded-failure ts sec tags a h = record {
    few = IsFew-at_endpoint (tag "method" tags) (endpoint_name tags) _ a.endpoints h.few;
    short = IsShort-record_error (error_of fl atoi ts tags) a.log h.short;
    gauge = h.gauge;
  }

  IsBounded-duration :
      (j : ℕ) (sec : ℤ) (v : fl.F) (tags : Map String String) (a : Aggregator fl)
      → IsBounded a
      → IsBounded (add_duration fl j sec v tags a)
  unfolding add_duration
  IsBounded-duration j sec v tags a h = record {
    few = IsFew-at_endpoint (tag "method" tags) (endpoint_name tags) _ a.endpoints h.few;
    short = h.short;
    gauge = h.gauge;
  }

  IsBounded-check :
      (sec : ℤ) (ok : Bool) (tags : Map String String) (a : Aggregator fl)
      → IsBounded a
      → IsBounded (add_check fl sec ok tags a)
  unfolding add_check
  IsBounded-check sec true tags a h = record { few = h.few; short = h.short; gauge = h.gauge }
  IsBounded-check sec false tags a h = record { few = h.few; short = h.short; gauge = h.gauge }

  IsBounded-if :
      (t : Bool) (a b : Aggregator fl) → IsBounded a → IsBounded b → IsBounded (if t then a else b)
  IsBounded-if true a b ha hb = ha
  IsBounded-if false a b ha hb = hb

  -- The switch on the metric keeps a bound, case by case.
  abbrev pub after : Aggregator fl → Option (Aggregator fl) → Aggregator fl
  after a none = a
  after a (some b) = b

  after_if :
      (t : Bool) (a b : Aggregator fl) (o : Option (Aggregator fl))
      → IsBounded b
      → IsBounded (after a o)
      → IsBounded (after a (if t then some b else o))
  after_if true a b o hb r = hb
  after_if false a b o hb r = r

  pub IsBounded-count_sample :
      (j : ℕ) (inst : String) (l : Sample fl) (a : Aggregator fl)
      → IsBounded a
      → IsBounded (after a (count_sample fl atoi j inst l a))
  unfolding count_sample add_request add_iteration add_sent add_received
  IsBounded-count_sample j inst l a h =
      let sec = unix l.time in
      after_if (str_eq l.metric "http_reqs") a _ _
        (record { few = h.few; short = h.short; gauge = h.gauge })
        (after_if (str_eq l.metric "http_req_duration") a _ _
          (IsBounded-duration j sec l.value l.tags a h)
          (after_if (str_eq l.metric "http_req_failed") a _ _
            (IsBounded-if (is_nonzero fl l.value) _ _ (IsBounded-failure l.time sec l.tags a h) h)
            (after_if (str_eq l.metric "iterations") a _ _
              (record { few = h.few; short = h.short; gauge = h.gauge })
              (after_if (str_eq l.metric "checks") a _ _
                (IsBounded-check sec (is_nonzero fl l.value) l.tags a h)
                (after_if (str_eq l.metric "data_sent") a _ _
                  (record { few = h.few; short = h.short; gauge = h.gauge })
                  (after_if (str_eq l.metric "data_received") a _ _
                    (record { few = h.few; short = h.short; gauge = h.gauge })
                    (after_if (str_eq l.metric "vus") a _ _
                      (IsBounded-vus inst sec (fl.truncate l.value) a h) h)))))))
