-- ===== src/Engine/Outcome/Codes.antt =====
-- The outcome of a run from the exit codes of its instances.
use open_synapse.Prelude.{
  ◌≤◌, ◌<◌, String, ◌≡◌, refl, sym, ap, ◌∙◌, ◌↔◌, ◌⊎◌, inl, inr, Bool, true, false, Option, List,
  [], ◌∷◌, arith, ltb, Bool-cases, All, Any, All-map, All-Any,
}
use open_synapse.Prelude.Int.{ℤ, pos, negsuc, ◌<ℤ◌}
use mathlib.Core.Path.{subst}
use open_synapse.Engine.Outcome.{completed, failed, rank, worst_from, combine_exit_codes, outcome}

abbrev WorstSpec : ℤ → List ℤ → ℤ → Type 0
WorstSpec worst cs w =
    (rank worst ≤ rank w) × All (λ c. rank c ≤ rank w) cs × ((w ≡ worst) ⊎ Any (λ c. c ≡ w) cs)

WorstSpec-up :
    (worst c w : ℤ) (cs : List ℤ)
    → rank worst < rank c
    → WorstSpec c cs w
    → WorstSpec worst (c ∷ cs) w
WorstSpec-up worst c w cs lt h =
    (omega arith, (h.0, h.1), elim h.2 [ inl e ↦ inr (inl (sym e)) | inr a ↦ inr (inr a) ])

WorstSpec-stay :
    (worst c w : ℤ) (cs : List ℤ)
    → rank c ≤ rank worst
    → WorstSpec worst cs w
    → WorstSpec worst (c ∷ cs) w
WorstSpec-stay worst c w cs le h =
    (h.0, (omega arith, h.1), elim h.2 [ inl e ↦ inl e | inr a ↦ inr (inr a) ])

worst_from_up :
    (worst c : ℤ) (cs : List ℤ)
    → ltb (rank worst) (rank c) ≡ true
    → worst_from c cs ≡ worst_from worst (c ∷ cs)
unfolding worst_from
worst_from_up worst c cs h = rw h refl

worst_from_stay :
    (worst c : ℤ) (cs : List ℤ)
    → ltb (rank worst) (rank c) ≡ false
    → worst_from worst cs ≡ worst_from worst (c ∷ cs)
unfolding worst_from
worst_from_stay worst c cs h = rw h refl

worst_from_lem : (worst : ℤ) (cs : List ℤ) → WorstSpec worst cs (worst_from worst cs)
worst_from_lem worst [] = unfold worst_from in (omega arith, tt, inl refl)
worst_from_lem worst (c ∷ cs) = elim (Bool-cases (ltb (rank worst) (rank c))) [
  | inl up ↦
      subst (WorstSpec worst (c ∷ cs)) (worst_from_up worst c cs up)
        (WorstSpec-up worst c (worst_from c cs) cs (ground arith) (worst_from_lem c cs))
  | inr stay ↦
      subst (WorstSpec worst (c ∷ cs)) (worst_from_stay worst c cs stay)
        (WorstSpec-stay worst c (worst_from worst cs) cs (ground arith) (worst_from_lem worst cs))
]

-- The combined code is zero or one of the exit codes, and none of the exit codes is worse.
pub combine_exit_codes_lem :
    (codes : List ℤ)
    → All (λ c. rank c ≤ rank (combine_exit_codes codes)) codes
      × ((combine_exit_codes codes ≡ pos 0) ⊎ Any (λ c. c ≡ combine_exit_codes codes) codes)
unfolding combine_exit_codes
combine_exit_codes_lem codes = let h = worst_from_lem (pos 0) codes in (h.1, h.2)

rank_zero : (c : ℤ) → rank c ≤ 0 → c ≡ pos 0
unfolding rank
rank_zero (pos n) h = ground arith
rank_zero (negsuc n) h = ground arith

rank_two : (c : ℤ) → rank c ≡ 2 → c ≡ pos 99
unfolding rank
rank_two (pos n) h = ground arith
rank_two (negsuc n) h = ground arith

rank_low : (c : ℤ) → rank c ≤ 2 ↔ (c ≡ pos 0) ⊎ (c ≡ pos 99) ⊎ (c ≡ pos 103)
unfolding rank
rank_low (pos n) = ground arith
rank_low (negsuc n) = ground arith

rank-pos_99 : rank (pos 99) ≡ 2
unfolding rank
rank-pos_99 = refl

rank-pos_0 : rank (pos 0) ≡ 0
unfolding rank
rank-pos_0 = refl

-- the two combined codes that count as a completed run
combined_zero : (codes : List ℤ) → All (λ c. c ≡ pos 0) codes → combine_exit_codes codes ≡ pos 0
combined_zero codes all = elim (combine_exit_codes_lem codes).1 [
  | inl e ↦ e
  | inr a ↦ All-Any codes (λ c z e. sym e ∙ z) all a
]

combined_99 :
    (codes : List ℤ)
    → All (λ c. rank c ≤ 2) codes
    → Any (λ c. c ≡ pos 99) codes
    → combine_exit_codes codes ≡ pos 99
combined_99 codes all any =
    let w = combine_exit_codes codes in
    let (bound, source) = combine_exit_codes_lem codes in
    let low : 2 ≤ rank w =
      All-Any codes (λ c le e. omega (arith, rank-pos_99, ap rank e)) bound any in
    let high : rank w ≤ 2 = elim source [
      | inl e ↦ omega (arith, rank-pos_0, ap rank e)
      | inr a ↦ All-Any codes (λ c le e. omega (arith, ap rank e)) all a
    ] in
    rank_two w (omega arith)

module _ (find : String → Option String) (tail : List String) where
  completed_code :
      (c : ℤ) → (outcome find false false tail c).status ≡ completed → (c ≡ pos 0) ⊎ (c ≡ pos 99)
  unfolding outcome
  completed_code (pos n) h = ground arith
  completed_code (negsuc n) h = ground arith

  code-completed :
      (stop_requested : Bool) (c : ℤ)
      → (c ≡ pos 0) ⊎ (c ≡ pos 99)
      → (outcome find false stop_requested tail c).status ≡ completed
  unfolding outcome
  code-completed stop_requested c h = ground arith

-- What the exit codes of a completed run look like: all 0, or some 99 and the others 0, 99 or 103.
abbrev pub AreClean : List ℤ → Type 0
AreClean codes =
    All (λ c. (c ≡ pos 0) ⊎ (c ≡ pos 99) ⊎ (c ≡ pos 103)) codes
    × (All (λ c. c ≡ pos 0) codes ⊎ Any (λ c. c ≡ pos 99) codes)

AreClean-code :
    (codes : List ℤ)
    → (combine_exit_codes codes ≡ pos 0) ⊎ (combine_exit_codes codes ≡ pos 99)
    → AreClean codes
AreClean-code codes (inl e) =
    let bound = (combine_exit_codes_lem codes).0 in
    (
      All-map codes (λ c le. (rank_low c).0 (omega (arith, rank-pos_0, ap rank e))) bound,
      inl (All-map codes (λ c le. rank_zero c (omega (arith, rank-pos_0, ap rank e))) bound),
    )
AreClean-code codes (inr e) =
    let (bound, source) = combine_exit_codes_lem codes in
    (
      All-map codes (λ c le. (rank_low c).0 (omega (arith, rank-pos_99, ap rank e))) bound,
      elim source [ inl z ↦ cc (z, e) | inr a ↦ inr (subst (λ w. Any (λ c. c ≡ w) codes) e a) ],
    )

-- A run that nobody killed or stopped counts as completed exactly if every instance exited with 0,
-- or some instance exited with 99 (failed thresholds) and all others with 0, 99 or 103.
pub outcome-completed :
    (find : String → Option String) (tail : List String) (codes : List ℤ)
    → (outcome find false false tail (combine_exit_codes codes)).status ≡ completed ↔ AreClean codes
outcome-completed find tail codes = (
  (λ h. AreClean-code codes (completed_code find tail (combine_exit_codes codes) h)),
  (λ h. code-completed find tail false (combine_exit_codes codes) (elim h.1 [
    | inl all ↦ inl (combined_zero codes all)
    | inr any ↦ inr (combined_99 codes (All-map codes (λ c low. (rank_low c).1 low) h.0) any)
  ])),
)

-- The exit codes that a requested stop explains.
abbrev pub IsStopCode : ℤ → Type 0
IsStopCode c = (c ≡ pos 105) ⊎ (c ≡ pos 108) ⊎ (c <ℤ pos 0)

rank_stop : (c : ℤ) → IsStopCode c → rank c ≡ 3
unfolding rank
rank_stop (pos n) h = ground arith
rank_stop (negsuc n) h = ground arith

combine_pair : (a b : ℤ) → rank a ≡ 3 → rank b ≡ 3 → combine_exit_codes (a ∷ b ∷ []) ≡ a
unfolding combine_exit_codes worst_from
combine_pair a b ra rb = ground (arith, rank-pos_0)

module _ (find : String → Option String) (tail : List String) where
  stop_completed : (c : ℤ) → IsStopCode c → (outcome find false true tail c).status ≡ completed
  unfolding outcome
  stop_completed (pos n) h = ground arith
  stop_completed (negsuc n) h = ground arith

  failure_failed :
      (c : ℤ) → rank c ≡ 3 → ¬ IsStopCode c → (outcome find false true tail c).status ≡ failed
  unfolding outcome rank
  failure_failed (pos n) r h = ground arith
  failure_failed (negsuc n) r h = absurd (h (inr (inr (omega arith))))

-- With a requested stop the outcome depends on the order of the instances: where one exited with a
-- code that the stop explains and the other with a real failure, the run is completed or failed
-- according to which of them comes first.
pub outcome_order :
    (find : String → Option String) (tail : List String) (a b : ℤ)
    → IsStopCode a
    → rank b ≡ 3
    → ¬ IsStopCode b
    → ((outcome find false true tail (combine_exit_codes (a ∷ b ∷ []))).status ≡ completed)
      × ((outcome find false true tail (combine_exit_codes (b ∷ a ∷ []))).status ≡ failed)
outcome_order find tail a b sa rb nb =
    let ra = rank_stop a sa in
    (
      rw (combine_pair a b ra rb) (stop_completed find tail a sa),
      rw (combine_pair b a rb ra) (failure_failed find tail b rb nb),
    )
