-- ===== src/Engine/Histogram.antt =====
-- apps/control-plane/internal/engine/histogram.go: the log-bucketed latency histogram. Counts are
-- numbers: an `int64` overflow would take 2 ^ 63 samples.
pub mod Percentiles
use open_synapse.Prelude.{
  ℕ, zero, suc, ◌+◌, ◌-◌, ◌*◌, ◌/◌, ◌%◌, ◌^◌, ◌≤◌, ◌<◌, String, eq_iff, ◌≡◌, refl, sym, ap, ◌∙◌,
  ◌≢◌, ◌↔◌, ◌⊎◌, inl, inr, Bool, true, false, not, ◌&&◌, ◌||◌, Option, none, some, List, [], ◌∷◌,
  ◌++◌, map, arith, ltb, leb, ◌==◌, if◌then◌else◌, Bool-cases, Option-cases, length, take, drop,
  length-append, length-drop, All, Any, All-map, All-Any,
}
use open_synapse.Prelude.Int.{
  ℤ, pos, negsuc, pos_part, neg_part, ◌+ℤ◌, ◌-ℤ◌, ◌≤ℤ◌, ◌<ℤ◌, ltb_ℤ, leb_ℤ, eqb_ℤ, max_ℤ, quot,
  wrap64, scale, InInt64, int_laws, +ℤ_parts, -ℤ_parts, one_part, eq_of_parts, wrap64_id,
}
use open_synapse.Prelude.Assoc.{
  Eq, string_eq, int_eq, Map, lookup, insert, remove, Unique, sum_by, weigh, lookup-insert,
  lookup-remove, Unique-insert, Unique-remove, sum_by-insert, sum_by-remove, length-remove,
  length-insert,
}
use open_synapse.Float64.{Float64, fmin, fmax}

-- The library's sorting functions, which the program calls.
pub record Sorting (fl : Float64) : Type 0 where
  -- sort.Float64s
  pub sort_floats : List fl.F → List fl.F
  -- sort.Slice on the bucket keys
  pub sort_keys : List ℤ → List ℤ
  pub length-sort_floats : (xs : List fl.F) → length (sort_floats xs) ≡ length xs

module _ (fl : Float64) where
  open fl use {F, of_int, add, mul, div, lt, log, exp, round, ceil, inf, decimal}

  -- histogram
  pub record Histogram : Type 0 where
    pub buckets : Map ℤ ℕ
    pub count : ℕ
    pub sum : F
    pub min : F
    pub max : F

  -- newHistogram
  unfoldable pub new_histogram : Histogram
  new_histogram = record {
    buckets = [];
    count = 0;
    sum = of_int (pos 0);
    min = inf;
    max = of_int (pos 0);
  }

  -- bucketOf; values below 1µs share the lowest bucket
  unfoldable pub bucket_of : F → ℤ
  bucket_of v =
      let v' = if lt v (decimal 1 3) then decimal 1 3 else v in
      round (mul (log v') (of_int (pos 200)))

  -- bucketValue
  unfoldable pub bucket_value : ℤ → F
  bucket_value b = exp (div (of_int b) (of_int (pos 200)))

  -- buckets[k] += n
  unfoldable pub bump : ℤ → ℕ → Map ℤ ℕ → Map ℤ ℕ
  bump k n m = insert k (weigh (λ c. c) (lookup k m) + n) m

  -- histogram.add
  unfoldable pub observe : F → Histogram → Histogram
  observe v h =
      let v' = if lt v (of_int (pos 0)) then of_int (pos 0) else v in
      record {
        buckets = bump (bucket_of v') 1 h.buckets;
        count = h.count + 1;
        sum = add h.sum v';
        min = if lt v' h.min then v' else h.min;
        max = if lt h.max v' then v' else h.max;
      }

  -- a sequence of samples
  unfoldable pub observe_all : List F → Histogram → Histogram
  observe_all [] h = h
  observe_all (v ∷ vs) h = observe_all vs (observe v h)

  abbrev pub keys_of : Map ℤ ℕ → List ℤ
  keys_of [] = []
  keys_of ((k, n) ∷ m) = k ∷ keys_of m

  -- the loop of percentile over the sorted keys
  unfoldable pub find_rank : Histogram → ℤ → ℕ → List ℤ → F
  find_rank h rank seen [] = h.max
  find_rank h rank seen (k ∷ ks) =
      let seen' = seen + weigh (λ c. c) (lookup k h.buckets) in
      let rest = find_rank h rank seen' ks in
      if leb_ℤ rank (pos seen') then fmax fl h.min (fmin fl (bucket_value k) h.max) else rest

  -- histogram.percentile
  unfoldable pub percentile : Sorting fl → Histogram → F → F
  percentile lib h q =
      let rank = ceil (mul q (of_int (pos h.count))) in
      let rank' = if ltb_ℤ rank (pos 1) then pos 1 else rank in
      if h.count == 0
      then of_int (pos 0)
      else if not (lt q (of_int (pos 1)))
      then h.max
      else find_rank h rank' 0 (lib.sort_keys (keys_of h.buckets))

  -- histogram.avg
  unfoldable pub average : Histogram → F
  average h = if h.count == 0 then of_int (pos 0) else div h.sum (of_int (pos h.count))

  -- xs[i], where an index out of range is a panic
  abbrev pub index : List F → ℤ → Option F
  index [] i = none
  index (x ∷ xs) (pos zero) = some x
  index (x ∷ xs) (pos (suc i)) = index xs (pos i)
  index (x ∷ xs) (negsuc i) = none

  -- exactPercentile; `none` is a panic
  unfoldable pub exact_percentile : List F → F → Option F
  exact_percentile sorted q =
      let n = length sorted in
      let idx = ceil (mul q (of_int (pos n))) -ℤ pos 1 in
      let idx' = if ltb_ℤ idx (pos 0) then pos 0 else idx in
      if n == 0
      then some (of_int (pos 0))
      else if not (lt q (of_int (pos 1)))
      then index sorted (pos n -ℤ pos 1)
      else index sorted idx'
