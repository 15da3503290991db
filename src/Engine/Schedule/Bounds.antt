-- ===== src/Engine/Schedule/Bounds.antt =====
-- The VU counts that a schedule calls for, and the hard bound on a run's length.
use open_synapse.Prelude.{◌≡◌, refl, sym, ◌⊎◌, inl, inr, List, [], ◌∷◌, arith, Bool-cases, All}
use open_synapse.Prelude.Int.{
  ℤ, pos, negsuc, ◌+ℤ◌, ◌-ℤ◌, ◌≤ℤ◌, ◌<ℤ◌, ltb_ℤ, leb_ℤ, max_ℤ, quot, int_laws, one_part,
}
use mathlib.Core.Path.{subst}
use open_synapse.Float64.{Float64, IsExact, IsCount}
use open_synapse.Engine.Schedule.{
  Stage, Schedule, ramp, target_from, target_at, peak_from, peak_vus, sum_durations, duration_of,
  max_duration_for, five_minutes, one_day,
}

module _ (fl : Float64) where
  open fl use {of_int, add, round, Le}

  -- An integer and a float between two integers add up to a number between the exact sums.
  round_add_bounds :
      (a d e m n : ℤ) (x : fl.F)
      → a +ℤ d ≡ m
      → a +ℤ e ≡ n
      → IsExact a
      → IsExact d × IsExact e
      → IsExact m × IsExact n
      → Le (of_int d) x
      → Le x (of_int e)
      → (m ≤ℤ round (add (of_int a) x)) × (round (add (of_int a) x) ≤ℤ n)
  round_add_bounds a d e m n x low high ea ed em ge le =
      fl.round_bounds _ m n em.0 em.1
        (subst (λ k. Le (of_int k) (add (of_int a) x)) low
          (fl.add_lower a d x ea ed.0 (subst IsExact (sym low) em.0) ge))
        (subst (λ k. Le (add (of_int a) x) (of_int k)) high
          (fl.add_upper a e x ea ed.1 (subst IsExact (sym high) em.1) le))

  -- A float64 holds the difference of two counts.
  IsExact-difference : (a b : ℤ) → IsCount a → IsCount b → IsExact (b -ℤ a)
  IsExact-difference a b ea eb = let parts = one_part (b -ℤ a) in (omega int_laws, omega int_laws)

  -- A ramp between two VU counts stays between them.
  ramp_bounds :
      (from start : ℤ) (st : Stage) (t : ℤ)
      → start ≤ℤ t
      → t <ℤ start +ℤ st.duration
      → pos 0 <ℤ st.duration
      → IsCount from
      → IsCount st.target
      → ((from ≤ℤ ramp fl from start st t) × (ramp fl from start st t ≤ℤ st.target))
        ⊎ ((st.target ≤ℤ ramp fl from start st t) × (ramp fl from start st t ≤ℤ from))
  unfolding ramp
  ramp_bounds from start st t ht hend hd ef et =
      let d : ℤ = st.target -ℤ from in
      let frac = fl.div_unit (t -ℤ start) st.duration (omega int_laws) (omega int_laws) hd in
      let all : from +ℤ d ≡ st.target = omega int_laws in
      let nothing : from +ℤ pos 0 ≡ from = omega int_laws in
      let none' : IsExact (pos 0) = (omega arith, omega arith) in
      let apart = IsExact-difference from st.target ef et in
      let exact : IsExact from × IsExact st.target =
        ((omega arith, omega arith), (omega arith, omega arith)) in
      elim (one_part d) [
        | inl neg ↦
            let part = fl.mul_nonpos _ d frac.0 frac.1 (omega arith) in
            inr (
              round_add_bounds from d (pos 0) st.target from _ all nothing exact.0 (apart, none')
                (exact.1, exact.0) part.0 part.1)
        | inr up ↦
            let part = fl.mul_nonneg _ d frac.0 frac.1 (omega arith) in
            inl (
              round_add_bounds from (pos 0) d from st.target _ nothing all exact.0 (none', apart)
                exact part.0 part.1)
      ]

  within_ramp :
      (from start : ℤ) (st : Stage) (t lo hi : ℤ)
      → start ≤ℤ t
      → t <ℤ start +ℤ st.duration
      → pos 0 <ℤ st.duration
      → (lo ≤ℤ from) × (from ≤ℤ hi) × IsCount from
      → (lo ≤ℤ st.target) × (st.target ≤ℤ hi) × IsCount st.target
      → (lo ≤ℤ ramp fl from start st t) × (ramp fl from start st t ≤ℤ hi)
  within_ramp from start st t lo hi ht hend hd f h =
      elim (ramp_bounds from start st t ht hend hd f.2 h.2) [
        | inl b ↦ (omega arith, omega arith)
        | inr b ↦ (omega arith, omega arith)
      ]

  target_from_bounds :
      (lo hi from start : ℤ) (sts : List Stage) (t : ℤ)
      → start ≤ℤ t
      → (lo ≤ℤ from) × (from ≤ℤ hi) × IsCount from
      → All (λ st. (lo ≤ℤ st.target) × (st.target ≤ℤ hi) × IsCount st.target) sts
      → (lo ≤ℤ target_from fl from start sts t) × (target_from fl from start sts t ≤ℤ hi)
  unfolding target_from
  target_from_bounds lo hi from start [] t ht f h = (f.0, f.1)
  target_from_bounds lo hi from start (st ∷ sts) t ht f h =
      elim (Bool-cases (ltb_ℤ t (start +ℤ st.duration))) [
        | inl inside ↦ elim (Bool-cases (leb_ℤ st.duration (pos 0))) [
          | inl empty ↦ rw inside (rw empty (h.0.0, h.0.1))
          | inr real ↦
              rw inside
                (rw real (within_ramp from start st t lo hi ht (ground arith) (ground arith) f h.0))
        ]
        | inr past ↦
            rw past (
              target_from_bounds lo hi st.target (start +ℤ st.duration) sts t (ground arith) h.0
                h.1)
      ]

peak_from-ge : (peak : ℤ) (sts : List Stage) → peak ≤ℤ peak_from peak sts
unfolding peak_from
peak_from-ge peak [] = omega arith
peak_from-ge peak (st ∷ sts) = ground (arith, peak_from-ge (max_ℤ peak st.target) sts)

-- Between `lo` and the running peak.
abbrev InRange : ℤ → ℤ → List Stage → Type 0
InRange lo hi = All (λ st. (lo ≤ℤ st.target) × (st.target ≤ℤ hi) × IsCount st.target)

InRange-mono :
    (lo hi hi' : ℤ) (sts : List Stage) → hi ≤ℤ hi' → InRange lo hi sts → InRange lo hi' sts
InRange-mono lo hi hi' [] le h = h
InRange-mono lo hi hi' (st ∷ sts) le h =
    ((h.0.0, omega arith, h.0.2), InRange-mono lo hi hi' sts le h.1)

InRange-peak_from :
    (lo peak : ℤ) (sts : List Stage)
    → All (λ st. (lo ≤ℤ st.target) × IsCount st.target) sts
    → InRange lo (peak_from peak sts) sts
unfolding peak_from
InRange-peak_from lo peak [] h = h
InRange-peak_from lo peak (st ∷ sts) h = (
  (h.0.0, ground (arith, peak_from-ge (max_ℤ peak st.target) sts), h.0.1),
  InRange-peak_from lo (max_ℤ peak st.target) sts h.1,
)

-- At any time from the start on, the schedule calls for at least any lower bound on its VU counts
-- and at most its peak, where the counts have a magnitude of at most 2 ^ 52.
pub target_at-le-peak_vus :
    (fl : Float64) (s : Schedule) (t lo : ℤ)
    → pos 0 ≤ℤ t
    → (lo ≤ℤ s.start_vus) × IsCount s.start_vus
    → All (λ st. (lo ≤ℤ st.target) × IsCount st.target) s.stages
    → (lo ≤ℤ target_at fl s t) × (target_at fl s t ≤ℤ peak_vus s)
unfolding target_at peak_vus
target_at-le-peak_vus fl s t lo ht f h =
    target_from_bounds fl lo (peak_from s.start_vus s.stages) s.start_vus (pos 0) s.stages t ht
      (f.0, peak_from-ge s.start_vus s.stages, f.1) (InRange-peak_from lo s.start_vus s.stages h)

-- The target of the last stage, or the start where there is none.
abbrev pub last_target : ℤ → List Stage → ℤ
last_target from [] = from
last_target from (st ∷ sts) = last_target st.target sts

sum_durations-ge :
    (d : ℤ) (sts : List Stage) → All (λ st. pos 0 ≤ℤ st.duration) sts → d ≤ℤ sum_durations d sts
unfolding sum_durations
sum_durations-ge d [] h = omega arith
sum_durations-ge d (st ∷ sts) h = omega (int_laws, sum_durations-ge (d +ℤ st.duration) sts h.1)

target_from-last :
    (fl : Float64) (from start t : ℤ) (sts : List Stage)
    → All (λ st. pos 0 ≤ℤ st.duration) sts
    → sum_durations start sts ≤ℤ t
    → target_from fl from start sts t ≡ last_target from sts
unfolding target_from sum_durations
target_from-last fl from start t [] h le = refl
target_from-last fl from start t (st ∷ sts) h le = ground (
  arith,
  sum_durations-ge (start +ℤ st.duration) sts h.1,
  target_from-last fl st.target (start +ℤ st.duration) t sts h.1,
)

-- From the end of the schedule on, it calls for the target of its last stage, where no stage has a
-- negative duration.
pub target_at-last :
    (fl : Float64) (s : Schedule) (t : ℤ)
    → All (λ st. pos 0 ≤ℤ st.duration) s.stages
    → duration_of s ≤ℤ t
    → target_at fl s t ≡ last_target s.start_vus s.stages
unfolding target_at duration_of
target_at-last fl s t h le = target_from-last fl s.start_vus (pos 0) t s.stages h le

-- The hard bound leaves room for at least five minutes and at most a day beyond a planned run, and
-- for half the plan, or for a day where half the plan is longer.
pub max_duration_for_bounds :
    (planned : ℤ)
    → pos 0 ≤ℤ planned
    → (planned +ℤ five_minutes ≤ℤ max_duration_for planned)
      × (max_duration_for planned ≤ℤ planned +ℤ one_day)
      × ((planned +ℤ quot planned 2 ≤ℤ max_duration_for planned)
          ⊎ (max_duration_for planned ≡ planned +ℤ one_day))
unfolding max_duration_for quot ◌+ℤ◌
max_duration_for_bounds (pos n) h = (ground arith, ground arith, ground arith)
max_duration_for_bounds (negsuc n) h = absurd (omega arith)
