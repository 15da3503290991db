-- ===== src/Compiler/Profiles/Overrides.antt =====
-- What the parameters of a run make of a scenario's load profile.
use open_synapse.Prelude.{
  String, ◌≡◌, ◌≢◌, ◌⊎◌, inl, inr, refl, true, Option, none, some, List, [], ◌∷◌, ltb, length,
  Option-cases, Sum-cases, arith, All, ap, All-map,
}
use open_synapse.Prelude.Int.{ℤ, pos, ◌+ℤ◌, ◌≤ℤ◌, ◌<ℤ◌, wrap64, quot, wrap64_id}
use open_synapse.Runs.Parameters.{
  RunStage, RunParameters, check_stages, validate_parameters, max_run_duration, max_run_vus,
}
use open_synapse.Compiler.Profiles.{
  ScenarioProps, ProfileStage, Profile, Managed, duration_of, sum_durations, managed_vus,
  emit_managed, profile_for, scenario_profile, checked_profile, own_profile, run_stages,
  max_duration_for,
}
use open_synapse.Runs.Parameters.Validation.{InRange, total_of, stage_time}
use open_synapse.Compiler.Profiles.Ceiling.{peak_from-le}

-- the stages that a run brings along
abbrev pub own_stages : Option RunParameters → List RunStage
own_stages none = []
own_stages (some ov) = ov.stages

-- Where the run brings no stages along, a profile that is made lasts for some time.
pub profile_for_positive :
    (parse : String → Option ℤ) (p : ScenarioProps) (ov : Option RunParameters) (prof : Profile)
    → own_stages ov ≡ []
    → profile_for parse p ov ≡ inr prof
    → pos 0 <ℤ duration_of prof
unfolding profile_for scenario_profile checked_profile
profile_for_positive parse p none prof h made = elim (Sum-cases (own_profile parse p)) [
  | inl (e, refused) ↦ ground (arith, made, refused)
  | inr (base, given) ↦ ground (arith, made, given)
]
profile_for_positive parse p (some ov) prof h made = elim (Sum-cases (own_profile parse p)) [
  | inl (e, refused) ↦ ground (arith, made, refused, h)
  | inr (base, given) ↦ ground (arith, made, given, h)
]

-- Every stage's target is within the bounds of a run.
abbrev pub AreTargets : List ProfileStage → Type 0
AreTargets ss = All (λ s. (pos 0 ≤ℤ s.target) × (s.target ≤ℤ max_run_vus)) ss

run_stages-check_stages :
    (parse : String → Option ℤ) (total : ℤ) (ss : List RunStage)
    → check_stages parse total ss ≡ none
    → (ps : List ProfileStage) × ((run_stages parse ss ≡ some ps)
        × ((sum_durations total ps ≤ℤ max_run_duration) × AreTargets ps))
unfolding check_stages run_stages sum_durations
run_stages-check_stages parse total [] h = ([], (refl, (ground (arith, h), tt)))
run_stages-check_stages parse total (s ∷ ss) h = elim (Option-cases (parse s.duration)) [
  | inl bad ↦ absurd (ground (arith, h, bad))
  | inr (d, good) ↦
      let rest : check_stages parse (wrap64 (total +ℤ d)) ss ≡ none = ground (arith, h, good) in
      let (ps, (made, (short, targets))) =
        run_stages-check_stages parse (wrap64 (total +ℤ d)) ss rest in
      (
        record { duration = d; target = s.target } ∷ ps,
        (ground (arith, good, made), (short, (ground (arith, h, good), targets))),
      )
]

-- what validateParameters says of the stages
check_stages-validate :
    (parse : String → Option ℤ) (ov : RunParameters)
    → validate_parameters parse ov ≡ none
    → check_stages parse (pos 0) ov.stages ≡ none
unfolding validate_parameters
check_stages-validate parse ov valid = ground (arith, valid)

length_cons : (ss : List RunStage) → ss ≢ [] → ltb 0 (length ss) ≡ true
length_cons [] h = absurd (h refl)
length_cons (s ∷ ss) h = ground arith

-- what is emitted for a run with stages of its own that it may have
emit_managed-run_stages :
    (parse : String → Option ℤ) (p : ScenarioProps) (ov : RunParameters)
    → validate_parameters parse ov ≡ none
    → ov.stages ≢ []
    → (ps : List ProfileStage) × ((run_stages parse ov.stages ≡ some ps)
        × ((sum_durations (pos 0) ps ≤ℤ max_run_duration)
            × (AreTargets ps
                × (emit_managed parse p (some ov) ≡ (
                    let prof : Profile = record { start_vus = pos 0; stages = ps } in
                    inr (record {
                      profile = prof;
                      max_vus = managed_vus p prof;
                      planned_duration = duration_of prof;
                      max_duration = max_duration_for (duration_of prof);
                    }))))))
unfolding emit_managed profile_for
emit_managed-run_stages parse p ov valid some_stages =
    let (ps, (made, (short, targets))) =
      run_stages-check_stages parse (pos 0) ov.stages (check_stages-validate parse ov valid) in
    (ps, (made, (short, (targets, ground (arith, made, length_cons ov.stages some_stages)))))

-- The stages of a profile are those of a run, in order, each with its parsed duration and its target.
abbrev pub AreStagesOf : (String → Option ℤ) → List RunStage → List ProfileStage → Type 0
AreStagesOf parse [] [] = Unit
AreStagesOf parse (s ∷ ss) (t ∷ ts) =
    ((parse s.duration ≡ some t.duration) × (t.target ≡ s.target)) × AreStagesOf parse ss ts
AreStagesOf parse [] (t ∷ ts) = ⊥
AreStagesOf parse (s ∷ ss) [] = ⊥

run_stages-AreStagesOf :
    (parse : String → Option ℤ) (ss : List RunStage) (ts : List ProfileStage)
    → run_stages parse ss ≡ some ts
    → AreStagesOf parse ss ts
unfolding run_stages
run_stages-AreStagesOf parse [] [] h = tt
run_stages-AreStagesOf parse [] (t ∷ ts) h = absurd (ground (arith, h))
run_stages-AreStagesOf parse (s ∷ ss) ts h = elim (Option-cases (parse s.duration)) [
  | inl bad ↦ absurd (ground (arith, h, bad))
  | inr (d, good) ↦ elim (Option-cases (run_stages parse ss)) [
    | inl stuck ↦ absurd (ground (arith, h, good, stuck))
    | inr (rest, found) ↦
        let made : ts ≡ record { duration = d; target = s.target } ∷ rest =
          ground (arith, h, good, found) in
        rw made ((good, refl), run_stages-AreStagesOf parse ss rest found)
  ]
]

sum_durations-total_of :
    (parse : String → Option ℤ) (total : ℤ) (ss : List RunStage) (ts : List ProfileStage)
    → AreStagesOf parse ss ts
    → InRange parse total ss
    → sum_durations total ts ≡ total_of parse total ss
unfolding sum_durations
sum_durations-total_of parse total [] [] same fits = refl
sum_durations-total_of parse total [] (t ∷ ts) same fits = absurd same
sum_durations-total_of parse total (s ∷ ss) [] same fits = absurd same
sum_durations-total_of parse total (s ∷ ss) (t ∷ ts) same fits =
    let timed : stage_time parse s ≡ t.duration = ground (arith, same.0.0) in
    let rest = sum_durations-total_of parse (total +ℤ stage_time parse s) ss ts same.1 fits.1 in
    ground (arith, timed, rest, wrap64_id (total +ℤ stage_time parse s) fits.0)

-- For a run whose parameters are accepted, and that brings stages along whose sum does not leave the int64,
-- the profile of the managed scenario is made: its stages are the run's in order, each with its parsed
-- duration and its target, it is planned for the sum of them, which is seven days at most, no target leaves
-- the bounds of a run, and the VU ceiling is within these bounds or the scenario's own.
pub emit_managed_validated :
    (parse : String → Option ℤ) (p : ScenarioProps) (ov : RunParameters)
    → validate_parameters parse ov ≡ none
    → ov.stages ≢ []
    → InRange parse (pos 0) ov.stages
    → (m : Managed) × (emit_managed parse p (some ov) ≡ inr m)
      × AreStagesOf parse ov.stages m.profile.stages
      × (m.planned_duration ≡ total_of parse (pos 0) ov.stages)
      × (total_of parse (pos 0) ov.stages ≤ℤ max_run_duration)
      × AreTargets m.profile.stages
      × ((m.max_vus ≤ℤ max_run_vus) ⊎ (m.max_vus ≡ p.max_vus))
unfolding managed_vus
emit_managed_validated parse p ov valid some_stages fits =
    let (ps, (made, (short, (targets, emitted)))) =
      emit_managed-run_stages parse p ov valid some_stages in
    let same = run_stages-AreStagesOf parse ov.stages ps made in
    let exact = sum_durations-total_of parse (pos 0) ov.stages ps same fits in
    let peak =
      peak_from-le (pos 0) max_run_vus ps (ground arith) (All-map ps (λ s t. t.1) targets) in
    (_, emitted, same, exact, ground (arith, exact, short), targets, ground (arith, peak))

-- every stage of the run lasts for no time
abbrev pub AreInstant : (String → Option ℤ) → List RunStage → Type 0
AreInstant parse ss = All (λ s. parse s.duration ≡ some (pos 0)) ss

run_stages_instant :
    (parse : String → Option ℤ) (ss : List RunStage) (ps : List ProfileStage)
    → AreInstant parse ss
    → run_stages parse ss ≡ some ps
    → sum_durations (pos 0) ps ≡ pos 0
unfolding run_stages sum_durations wrap64 ◌+ℤ◌
run_stages_instant parse [] ps h made = ground (arith, made)
run_stages_instant parse (s ∷ ss) [] h made = refl
run_stages_instant parse (s ∷ ss) (t ∷ ps) h made = elim (Option-cases (run_stages parse ss)) [
  | inl stuck ↦ absurd (ground (arith, made, stuck, h.0))
  | inr (rest, found) ↦
      let again = run_stages_instant parse ss rest h.1 found in
      let parts : (t.duration ≡ pos 0) × (ps ≡ rest) = ground (arith, made, found, h.0) in
      ground (arith, parts, again)
]

-- A run of no length is accepted, although a scenario of no length is refused: where the parameters
-- pass validateParameters, there are stages, and each of them parses to zero, the compiler plans a run
-- of zero length, which may last for five minutes.
pub emit_managed_instant :
    (parse : String → Option ℤ) (p : ScenarioProps) (ov : RunParameters)
    → validate_parameters parse ov ≡ none
    → ov.stages ≢ []
    → AreInstant parse ov.stages
    → (m : Managed) × ((emit_managed parse p (some ov) ≡ inr m)
        × ((m.planned_duration ≡ pos 0) × (m.max_duration ≡ pos 300000000000)))
unfolding max_duration_for wrap64 ◌+ℤ◌ quot
emit_managed_instant parse p ov valid some_stages instant =
    let (ps, (made, (short, (targets, emitted)))) =
      emit_managed-run_stages parse p ov valid some_stages in
    let none_left = run_stages_instant parse ov.stages ps instant made in
    (_, (emitted, (none_left, ap max_duration_for none_left)))
