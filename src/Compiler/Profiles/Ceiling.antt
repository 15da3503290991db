-- ===== src/Compiler/Profiles/Ceiling.antt =====
-- The VU ceiling and the length of a managed scenario.
use open_synapse.Prelude.{
  String, ◌≡◌, inl, inr, Option, List, [], ◌∷◌, if◌then◌else◌, Sum-cases, arith, All, All-map,
}
use open_synapse.Prelude.Int.{ℤ, pos, ◌≤ℤ◌, ltb_ℤ}
use open_synapse.Runs.Parameters.{RunParameters}
use open_synapse.Compiler.Profiles.{
  ScenarioProps, ProfileStage, Managed, peak_of, peak_from, managed_vus, emit_managed, profile_for,
}

-- No stage calls for more VUs than a number.
abbrev pub IsUnder : ℤ → List ProfileStage → Type 0
IsUnder n ss = All (λ s. s.target ≤ℤ n) ss

peak_from_bounds :
    (peak : ℤ) (ss : List ProfileStage)
    → (peak ≤ℤ peak_from peak ss) × IsUnder (peak_from peak ss) ss
unfolding peak_from
peak_from_bounds peak [] = (omega arith, tt)
peak_from_bounds peak (s ∷ ss) =
    ground (arith, peak_from_bounds (if ltb_ℤ peak s.target then s.target else peak) ss)

IsUnder-le : (a b : ℤ) (ss : List ProfileStage) → a ≤ℤ b → IsUnder a ss → IsUnder b ss
IsUnder-le a b ss h k = All-map ss (λ s le. ground (arith, h, le)) k

pub peak_from-le :
    (peak n : ℤ) (ps : List ProfileStage) → peak ≤ℤ n → IsUnder n ps → peak_from peak ps ≤ℤ n
unfolding peak_from
peak_from-le peak n [] h under = h
peak_from-le peak n (s ∷ ss) h under =
    peak_from-le (if ltb_ℤ peak s.target then s.target else peak) n ss (ground (arith, h, under.0))
      under.1

-- Whatever the scenario and the run's parameters: if the managed scenario is compiled, its profile
-- starts with no more VUs than the ceiling that k6 is started with, and no stage of it calls for
-- more; the ceiling is at least one, and no lower than the scenario's own.
pub emit_managed-ceiling :
    (parse : String → Option ℤ) (p : ScenarioProps) (ov : Option RunParameters) (m : Managed)
    → emit_managed parse p ov ≡ inr m
    → (m.profile.start_vus ≤ℤ m.max_vus)
      × IsUnder m.max_vus m.profile.stages
      × (pos 1 ≤ℤ m.max_vus)
      × (p.max_vus ≤ℤ m.max_vus)
unfolding emit_managed managed_vus
emit_managed-ceiling parse p ov m h = elim (Sum-cases (profile_for parse p ov)) [
  | inl (e, refused) ↦ ground (arith, h, refused)
  | inr (prof, made) ↦
      let bounds = peak_from_bounds prof.start_vus prof.stages in
      ground (
        arith,
        h,
        made,
        bounds.0,
        IsUnder-le (peak_of prof) (managed_vus p prof) prof.stages (ground arith) bounds.1,
      )
]
