-- ===== src/Compiler/Scenarios/Keys.antt =====
-- When the keys and the function names of scenarios are distinct.
use mathlib.Core.List.{map}
use open_synapse.Prelude.{
  ℕ, ◌+◌, ◌≡◌, ◌⊎◌, refl, ap, ◌∙◌, inl, inr, Bool, true, false, List, [], ◌∷◌, ◌++◌, if◌then◌else◌,
  Bool-cases, arith, All, length,
}
use open_synapse.Prelude.Codes.{Text, codes, replace_char, eqb_text}
use open_synapse.Compiler.Scenarios.{
  ScenarioOut, free_key, scenario_key, scenario_fn, add_scenario, add_scenarios,
}
use open_synapse.Compiler.Quoting.{
  is_digit, sanitize_scenario_name, sanitize_var_name, scenario_name_from, var_name_from,
}

abbrev pub has_key : Text → List ScenarioOut → Bool
has_key key [] = false
has_key key (s ∷ ss) = if eqb_text s.key key then true else has_key key ss

-- Once a key is none of those that follow, the loop keeps it.
free_key_kept :
    (decimal : ℕ → Text) (n : ℕ) (key : Text) (ss : List ScenarioOut)
    → has_key key ss ≡ false
    → free_key decimal n key ss ≡ key
unfolding free_key
free_key_kept decimal n key [] h = refl
free_key_kept decimal n key (s ∷ ss) h = ground (arith, h, free_key_kept decimal n key ss)

abbrev suffixed : (ℕ → Text) → ℕ → Text → Text
suffixed decimal n key = key ++ b'-' ∷ decimal (n + 1)

free_key-cases :
    (decimal : ℕ → Text) (n : ℕ) (key : Text) (ss : List ScenarioOut)
    → has_key (suffixed decimal n key) ss ≡ false
    → ((free_key decimal n key ss ≡ key) × (has_key key ss ≡ false))
      ⊎ (free_key decimal n key ss ≡ suffixed decimal n key)
unfolding free_key
free_key-cases decimal n key [] h = inl (refl, refl)
free_key-cases decimal n key (s ∷ ss) h =
    let kept = free_key_kept decimal n (suffixed decimal n key) ss in
    let rest = free_key-cases decimal n key ss in
    elim (Bool-cases (eqb_text s.key key)) [
      | inl taken ↦ inr (ground (arith, h, taken, kept))
      | inr other ↦ elim (rest (ground (arith, h))) [
        | inl free ↦ inl (ground (arith, other, free))
        | inr long ↦ inr (ground (arith, other, long))
      ]
    ]

-- A scenario gets a key that no scenario before it has, if none before it has its own name with the
-- number that would be put behind it.
pub scenario_key_free :
    (decimal : ℕ → Text) (name : Text) (ss : List ScenarioOut)
    → has_key (suffixed decimal (length ss) (sanitize_scenario_name name)) ss ≡ false
    → has_key (scenario_key decimal name ss) ss ≡ false
scenario_key_free decimal name ss h =
    elim (free_key-cases decimal (length ss) (sanitize_scenario_name name) ss h) [
      | inl free ↦ ground (arith, free)
      | inr long ↦ ground (arith, h, long)
    ]

eqb_text_refl : (s : Text) → eqb_text s s ≡ true
eqb_text_refl [] = refl
eqb_text_refl (c ∷ s) = ground (arith, eqb_text_refl s)

eqb_text_longer : (s t : Text) (c : ℕ) → eqb_text (s ++ c ∷ t) s ≡ false
eqb_text_longer [] t c = refl
eqb_text_longer (d ∷ s) t c = ground (arith, eqb_text_longer s t c)

scenario_name_from-digits : (s : Text) → All (λ d. is_digit d ≡ true) s → scenario_name_from s ≡ s
unfolding scenario_name_from
scenario_name_from-digits [] h = refl
scenario_name_from-digits (c ∷ s) h = ground (arith, h.0, scenario_name_from-digits s h.1)

scenario_name_from-append :
    (s t : Text) → scenario_name_from (s ++ t) ≡ scenario_name_from s ++ scenario_name_from t
unfolding scenario_name_from
scenario_name_from-append [] t = refl
scenario_name_from-append (c ∷ s) t = ground (arith, scenario_name_from-append s t)

-- Two scenarios can get the same key: if three are named name-3, name and name, whatever the name is
-- (not empty), then the third gets the key of the first.
pub add_scenarios_same_key :
    (decimal : ℕ → Text) (c : ℕ) (s : Text)
    → All (λ d. is_digit d ≡ true) (decimal 3)
    → map
        (λ o. o.key)
        (add_scenarios decimal ((c ∷ s ++ b'-' ∷ decimal 3) ∷ (c ∷ s) ∷ (c ∷ s) ∷ []) [])
      ≡ (let base = sanitize_scenario_name (c ∷ s) in
          (base ++ b'-' ∷ decimal 3) ∷ base ∷ (base ++ b'-' ∷ decimal 3) ∷ [])
unfolding add_scenarios add_scenario free_key sanitize_scenario_name scenario_name_from
add_scenarios_same_key decimal c s digits =
    let base = scenario_name_from (c ∷ s) in
    let first : scenario_name_from (c ∷ s ++ b'-' ∷ decimal 3) ≡ base ++ b'-' ∷ decimal 3 =
      scenario_name_from-append (c ∷ s) (b'-' ∷ decimal 3)
      ∙ ap (λ t. base ++ b'-' ∷ t) (scenario_name_from-digits (decimal 3) digits) in
    ground (arith, first, eqb_text_longer base (decimal 3) b'-', eqb_text_refl base)

var_name_from-same :
    (first : Bool) (a b : Text)
    → var_name_from first (a ++ b'-' ∷ b) ≡ var_name_from first (a ++ b'_' ∷ b)
unfolding var_name_from
var_name_from-same first [] b = refl
var_name_from-same first (c ∷ a) b = ground (arith, var_name_from-same false a b)

-- Two scenarios can get the same function, although their keys differ: a dash and an underscore make
-- no difference to its name.
pub scenario_fn_same : (a b : Text) → scenario_fn (a ++ b'-' ∷ b) ≡ scenario_fn (a ++ b'_' ∷ b)
unfolding scenario_fn sanitize_var_name
scenario_fn_same [] b =
    ap (λ t. codes "scenario_" ++ replace_char b'-' (b'_' ∷ []) t) (var_name_from-same true [] b)
scenario_fn_same (c ∷ a) b =
    ap (λ t. codes "scenario_" ++ replace_char b'-' (b'_' ∷ []) t)
      (var_name_from-same true (c ∷ a) b)
