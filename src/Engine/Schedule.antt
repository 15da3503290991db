-- ===== src/Engine/Schedule.antt =====
-- apps/control-plane/internal/engine/schedule.go: the VU profile that the engine drives, and the
-- hard bound on a run's length. Durations are nanoseconds (`time.Duration`).
pub mod Bounds
use open_synapse.Prelude.{List, [], ◌∷◌, if◌then◌else◌}
use open_synapse.Prelude.Int.{ℤ, pos, ◌+ℤ◌, ◌-ℤ◌, ltb_ℤ, leb_ℤ, quot}
use open_synapse.Float64.{Float64}

-- Stage
pub record Stage : Type 0 where
  pub duration : ℤ
  pub target : ℤ

-- Schedule
pub record Schedule : Type 0 where
  pub start_vus : ℤ
  pub stages : List Stage

-- ConstantSchedule
unfoldable pub constant_schedule : ℤ → ℤ → Schedule
constant_schedule vus d = record {
  start_vus = vus;
  stages = record { duration = d; target = vus } ∷ [];
}

-- the loop of Schedule.Duration
unfoldable pub sum_durations : ℤ → List Stage → ℤ
sum_durations d [] = d
sum_durations d (st ∷ sts) = sum_durations (d +ℤ st.duration) sts

-- Schedule.Duration
unfoldable pub duration_of : Schedule → ℤ
unfolding sum_durations
duration_of s = sum_durations (pos 0) s.stages

-- the loop of Schedule.PeakVUs
unfoldable pub peak_from : ℤ → List Stage → ℤ
peak_from peak [] = peak
peak_from peak (st ∷ sts) = peak_from (if ltb_ℤ peak st.target then st.target else peak) sts

-- Schedule.PeakVUs
unfoldable pub peak_vus : Schedule → ℤ
unfolding peak_from
peak_vus s = peak_from s.start_vus s.stages

module _ (fl : Float64) where
  open fl use {of_int, add, mul, div, round}

  -- The linear ramp inside a stage: `int(math.Round(float64(from) + frac*float64(st.Target-from)))`
  -- with `frac := float64(t-start) / float64(st.Duration)`.
  unfoldable pub ramp : ℤ → ℤ → Stage → ℤ → ℤ
  ramp from start st t =
      let frac = div (of_int (t -ℤ start)) (of_int st.duration) in
      round (add (of_int from) (mul frac (of_int (st.target -ℤ from))))

  -- the loop of Schedule.TargetAt
  unfoldable pub target_from : ℤ → ℤ → List Stage → ℤ → ℤ
  unfolding ramp
  target_from from start [] t = from
  target_from from start (st ∷ sts) t =
      let stop = start +ℤ st.duration in
      let rest = target_from st.target stop sts t in
      if ltb_ℤ t stop
      then (if leb_ℤ st.duration (pos 0) then st.target else ramp from start st t)
      else rest

  -- Schedule.TargetAt
  unfoldable pub target_at : Schedule → ℤ → ℤ
  unfolding target_from
  target_at s t = target_from s.start_vus (pos 0) s.stages t

-- time.Second, time.Minute and time.Hour
abbrev pub second : ℤ
second = pos 1000000000

abbrev pub five_minutes : ℤ
five_minutes = pos 300000000000

abbrev pub one_day : ℤ
one_day = pos 86400000000000

-- MaxDurationFor
unfoldable pub max_duration_for : ℤ → ℤ
unfolding quot
max_duration_for planned =
    let half = quot planned 2 in
    let buffer = if ltb_ℤ half five_minutes then five_minutes else half in
    let buffer' = if ltb_ℤ one_day buffer then one_day else buffer in planned +ℤ buffer'
