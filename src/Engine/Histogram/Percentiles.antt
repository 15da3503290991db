-- ===== src/Engine/Histogram/Percentiles.antt =====
-- What the reported latency percentiles are.
use open_synapse.Prelude.{
  ℕ, zero, suc, ◌+◌, ◌^◌, ◌≤◌, ◌<◌, ◌≡◌, refl, ◌⊎◌, inl, inr, false, some, List, [], ◌∷◌, arith,
  ◌==◌, if◌then◌else◌, Bool-cases, length,
}
use open_synapse.Prelude.Int.{ℤ, pos, negsuc, ◌-ℤ◌, ◌≤ℤ◌, ◌<ℤ◌, ltb_ℤ, leb_ℤ, int_laws}
use open_synapse.Prelude.Assoc.{string_eq, int_eq, lookup, sum_by, weigh, sum_by-insert}
use open_synapse.Float64.{Float64, fmin, fmax}
use open_synapse.Engine.Histogram.{
  Sorting, Histogram, new_histogram, bucket_of, bucket_value, bump, observe, find_rank, percentile,
  keys_of, observe_all, index, exact_percentile, All, Any,
}

module _ (fl : Float64) where
  open fl use {F, of_int, mul, lt, Le, ceil}

  fmax_bounds : (a b hi : F) → Le a hi → Le b hi → Le a (fmax fl a b) × Le (fmax fl a b) hi
  unfolding fmax
  fmax_bounds a b hi ha hb = elim (Bool-cases (lt a b)) [
    | inl up ↦ rw up (fl.lt_true a b up, hb)
    | inr stay ↦ rw stay (fl.Le-refl a, ha)
  ]

  fmin_upper : (a b : F) → Le (fmin fl a b) b
  unfolding fmin
  fmin_upper a b = elim (Bool-cases (lt b a)) [
    | inl down ↦ rw down (fl.Le-refl b)
    | inr stay ↦ rw stay (fl.lt_false b a stay)
  ]

  -- the value that a sample is recorded as: a negative one counts as 0
  abbrev pub recorded : F → F
  recorded v = if lt v (of_int (pos 0)) then of_int (pos 0) else v

  -- Nothing in the list is recorded below one value or above the other.
  abbrev pub IsWithin : F → F → List F → Type 0
  IsWithin lo hi vs = All (λ v. Le lo (recorded v) × Le (recorded v) hi) vs

  -- The value is one that the list has, as it is recorded.
  abbrev pub IsRecorded : F → List F → Type 0
  IsRecorded x vs = Any (λ v. x ≡ recorded v) vs

  -- The observed range of a histogram is not empty, and its buckets hold every sample once.
  pub record IsHist (h : Histogram fl) : Type 0 where
    pub range : (h.count ≡ 0) ⊎ Le h.min h.max
    pub counted : sum_by (λ n. n) h.buckets ≡ h.count
    pub nonneg : Le (of_int (pos 0)) h.max

  find_rank_range :
      (h : Histogram fl) (rank : ℤ) (seen : ℕ) (ks : List ℤ)
      → Le h.min h.max
      → Le h.min (find_rank fl h rank seen ks) × Le (find_rank fl h rank seen ks) h.max
  unfolding find_rank
  find_rank_range h rank seen [] r = (r, fl.Le-refl h.max)
  find_rank_range h rank seen (k ∷ ks) r =
      let seen' = seen + weigh (λ c. c) (lookup k h.buckets) in
      elim (Bool-cases (leb_ℤ rank (pos seen'))) [
        | inl here ↦ rw here (
            fmax_bounds h.min (fmin fl (bucket_value fl k) h.max) h.max r
              (fmin_upper (bucket_value fl k) h.max))
        | inr later ↦ rw later (find_rank_range h rank seen' ks r)
      ]

  least_low : (v m : F) → Le (if lt v m then v else m) v
  least_low v m = elim (Bool-cases (lt v m)) [
    | inl down ↦ rw down (fl.Le-refl v)
    | inr stay ↦ rw stay (fl.lt_false v m stay)
  ]

  least_below : (v m : F) → Le (if lt v m then v else m) m
  least_below v m = elim (Bool-cases (lt v m)) [
    | inl down ↦ rw down (fl.lt_true v m down)
    | inr stay ↦ rw stay (fl.Le-refl m)
  ]

  most_high : (v m : F) → Le v (if lt m v then v else m) × Le m (if lt m v then v else m)
  most_high v m = elim (Bool-cases (lt m v)) [
    | inl up ↦ rw up (fl.Le-refl v, fl.lt_true m v up)
    | inr stay ↦ rw stay (fl.lt_false m v stay, fl.Le-refl m)
  ]

  observe-IsHist : (v : F) (h : Histogram fl) → IsHist h → IsHist (observe fl v h)
  unfolding observe bump
  observe-IsHist v h ok =
      let zero' = of_int (pos 0) in
      let v' = if lt v zero' then zero' else v in
      let high = most_high v' h.max in
      record {
        range = inr (fl.Le-trans _ v' _ (least_low v' h.min) high.0);
        counted = omega (
          arith,
          sum_by-insert (λ n. n) (bucket_of fl v')
              (weigh (λ c. c) (lookup (bucket_of fl v') h.buckets) + 1) h.buckets,
          ok.counted,
        );
        nonneg = fl.Le-trans zero' h.max _ ok.nonneg high.1;
      }

  observe-extremes :
      (v : F) (h : Histogram fl)
      → Le (observe fl v h).min h.min
        × Le (observe fl v h).min (recorded v)
        × Le h.max (observe fl v h).max
        × Le (recorded v) (observe fl v h).max
  unfolding observe
  observe-extremes v h =
      let high = most_high (recorded v) h.max in
      (least_below (recorded v) h.min, least_low (recorded v) h.min, high.1, high.0)

  -- More samples only widen the range, and it contains each of them.
  observe_all-range :
      (vs : List F) (h : Histogram fl)
      → Le (observe_all fl vs h).min h.min
        × Le h.max (observe_all fl vs h).max
        × IsWithin (observe_all fl vs h).min (observe_all fl vs h).max vs
  unfolding observe_all
  observe_all-range [] h = (fl.Le-refl h.min, fl.Le-refl h.max, tt)
  observe_all-range (v ∷ vs) h =
      let (below, low, above, high) = observe-extremes v h in
      let (below', above', within) = observe_all-range vs (observe fl v h) in
      (
        fl.Le-trans _ _ _ below' below,
        fl.Le-trans _ _ _ above above',
        ((fl.Le-trans _ _ _ below' low, fl.Le-trans _ _ _ high above'), within),
      )

  observe_all-attained :
      (vs : List F) (h : Histogram fl)
      → (((observe_all fl vs h).min ≡ h.min) ⊎ IsRecorded (observe_all fl vs h).min vs)
        × (((observe_all fl vs h).max ≡ h.max) ⊎ IsRecorded (observe_all fl vs h).max vs)
  unfolding observe_all observe
  observe_all-attained [] h = (inl refl, inl refl)
  observe_all-attained (v ∷ vs) h =
      let (least, most) = observe_all-attained vs (observe fl v h) in
      (
        elim (Bool-cases (lt (recorded v) h.min)) [
          | inl down ↦ ground (arith, least)
          | inr stay ↦ ground (arith, least)
        ],
        elim (Bool-cases (lt h.max (recorded v))) [
          | inl up ↦ ground (arith, most)
          | inr stay ↦ ground (arith, most)
        ],
      )

  observe_all-IsHist : (vs : List F) (h : Histogram fl) → IsHist h → IsHist (observe_all fl vs h)
  unfolding observe_all
  observe_all-IsHist [] h ok = ok
  observe_all-IsHist (v ∷ vs) h ok = observe_all-IsHist vs (observe fl v h) (observe-IsHist v h ok)

  new_histogram-IsHist : IsHist (new_histogram fl)
  unfolding new_histogram
  new_histogram-IsHist = record { range = inl refl; counted = refl; nonneg = fl.Le-refl _ }

  count-observe_all :
      (vs : List F) (h : Histogram fl) → (observe_all fl vs h).count ≡ h.count + length vs
  unfolding observe_all observe
  count-observe_all [] h = omega arith
  count-observe_all (v ∷ vs) h = omega (arith, count-observe_all vs (observe fl v h))

  count-new : (new_histogram fl).count ≡ 0
  unfolding new_histogram
  count-new = refl

  percentile_range :
      (lib : Sorting fl) (h : Histogram fl) (q : F)
      → 0 < h.count
      → Le h.min h.max
      → Le h.min (percentile fl lib h q) × Le (percentile fl lib h q) h.max
  unfolding percentile
  percentile_range lib h q some' r =
      let rank = ceil (mul q (of_int (pos h.count))) in
      let rank' = if ltb_ℤ rank (pos 1) then pos 1 else rank in
      let keys = lib.sort_keys (keys_of fl h.buckets) in
      let nonempty : (h.count == 0) ≡ false = ground arith in
      rw nonempty (elim (Bool-cases (lt q (of_int (pos 1)))) [
        | inl below ↦ rw below (find_rank_range h rank' 0 keys r)
        | inr top ↦ rw top (r, fl.Le-refl h.max)
      ])

-- After any samples, at least one of them: the histogram counts every sample and holds each in one
-- bucket; its least value is at most every sample and its greatest at least every sample, and each is
-- a sample or the value it started with (infinity, and 0), where a negative sample counts as 0; and
-- any percentile that it reports lies between the two, whatever the quantile.
pub percentile-observe_all :
    (fl : Float64) (lib : Sorting fl) (v : fl.F) (vs : List fl.F) (q : fl.F)
    → let h = observe_all fl (v ∷ vs) (new_histogram fl) in
      (h.count ≡ length (v ∷ vs))
      × (sum_by (λ n. n) h.buckets ≡ h.count)
      × IsWithin fl h.min h.max (v ∷ vs)
      × ((h.min ≡ fl.inf) ⊎ IsRecorded fl h.min (v ∷ vs))
      × ((h.max ≡ fl.of_int (pos 0)) ⊎ IsRecorded fl h.max (v ∷ vs))
      × fl.Le h.min (percentile fl lib h q)
      × fl.Le (percentile fl lib h q) h.max
unfolding new_histogram
percentile-observe_all fl lib v vs q =
    let h = observe_all fl (v ∷ vs) (new_histogram fl) in
    let ok = observe_all-IsHist fl (v ∷ vs) (new_histogram fl) (new_histogram-IsHist fl) in
    let counts : h.count ≡ length (v ∷ vs) =
      omega (arith, count-observe_all fl (v ∷ vs) (new_histogram fl), count-new fl) in
    let within =
      percentile_range fl lib h q (omega arith)
        (elim ok.range [ inl e ↦ absurd (omega arith) | inr r ↦ r ]) in
    let (below, above, all) = observe_all-range fl (v ∷ vs) (new_histogram fl) in
    let (least, most) = observe_all-attained fl (v ∷ vs) (new_histogram fl) in
    (counts, ok.counted, all, least, most, within.0, within.1)

index_in_bounds :
    (fl : Float64) (xs : List fl.F) (i : ℤ)
    → pos 0 ≤ℤ i
    → i <ℤ pos (length xs)
    → (x : fl.F) × (index fl xs i ≡ some x)
index_in_bounds fl [] (pos n) lo hi = absurd (omega arith)
index_in_bounds fl (x ∷ xs) (pos zero) lo hi = (x, refl)
index_in_bounds fl (x ∷ xs) (pos (suc n)) lo hi =
    index_in_bounds fl xs (pos n) (omega arith) (omega arith)
index_in_bounds fl [] (negsuc n) lo hi = absurd (omega arith)
index_in_bounds fl (x ∷ xs) (negsuc n) lo hi = absurd (omega arith)

abbrev clamp : ℤ → ℤ
clamp i = if ltb_ℤ i (pos 0) then pos 0 else i

clamped : (i : ℤ) (n : ℕ) → 0 < n → i <ℤ pos n → (pos 0 ≤ℤ clamp i) × (clamp i <ℤ pos n)
clamped (pos k) n h lt = ground arith
clamped (negsuc k) n h lt = ground arith

module _ (fl : Float64) (q : fl.F) where
  open fl use {of_int, mul, Le, ceil}

  -- The index that exact_percentile computes, clamped at 0, is below the number of samples.
  index_low :
      (n : ℕ)
      → Le (of_int (pos 0)) q
      → Le q (of_int (pos 1))
      → suc n ≤ 2 ^ 53
      → ceil (mul q (of_int (pos (suc n)))) ≤ℤ pos (suc n)
  index_low n lo hi few =
      let (least, most) = fl.mul_nonneg q (pos (suc n)) lo hi (omega arith) in
      let bounds =
        fl.ceil_bounds (mul q (of_int (pos (suc n)))) (pos 0) (pos (suc n))
          (omega arith, omega arith) (omega arith, omega arith) least most in
      bounds.1

  -- An exact percentile never reads outside its samples: for every quantile from 0 up and any
  -- number of samples that a float64 counts exactly, the function returns a value.
  pub exact_percentile_total :
      (xs : List fl.F)
      → Le (of_int (pos 0)) q
      → length xs ≤ 2 ^ 53
      → (x : fl.F) × (exact_percentile fl xs q ≡ some x)
  unfolding exact_percentile
  exact_percentile_total [] lo few = (of_int (pos 0), refl)
  exact_percentile_total (x ∷ xs) lo few =
      let idx = ceil (mul q (of_int (pos (suc (length xs))))) -ℤ pos 1 in
      let some' : (suc (length xs) == 0) ≡ false = ground arith in
      rw some' (elim (Bool-cases (fl.lt q (of_int (pos 1)))) [
        | inl below ↦
            let top = index_low (length xs) lo (fl.lt_true q _ below) few in
            let (least, most) = clamped idx (suc (length xs)) (omega arith) (omega int_laws) in
            rw below (index_in_bounds fl (x ∷ xs) (clamp idx) least most)
        | inr all ↦ rw all (
            index_in_bounds fl (x ∷ xs) (pos (suc (length xs)) -ℤ pos 1) (omega int_laws)
              (omega int_laws))
      ])
