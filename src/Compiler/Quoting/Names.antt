-- ===== src/Compiler/Quoting/Names.antt =====
-- The identifiers and scenario names that the compiler makes of free text.
use open_synapse.Prelude.{ℕ, ◌≡◌, refl, Bool, true, false, ◌||◌, [], ◌∷◌, ◌==◌, arith, All}
use open_synapse.Prelude.Codes.{Text}
use open_synapse.Compiler.Quoting.{
  var_name_from, sanitize_var_name, scenario_name_from, sanitize_scenario_name, is_letter, is_digit,
}

-- ECMA-262's IdentifierStart and IdentifierPart, for ASCII
abbrev pub is_identifier_start : ℕ → Bool
is_identifier_start c = is_letter c || c == b'$' || c == b'_'

abbrev pub is_identifier_part : ℕ → Bool
is_identifier_part c = is_identifier_start c || is_digit c

-- an IdentifierName: the reserved words have this form, too
abbrev pub IsIdentifierName : Text → Type 0
IsIdentifierName [] = ⊥
IsIdentifierName (c ∷ s) = (is_identifier_start c ≡ true) × All (λ d. is_identifier_part d ≡ true) s

-- the characters that k6 accepts in the name of a scenario
abbrev pub is_scenario_char : ℕ → Bool
is_scenario_char c = is_letter c || is_digit c || c == b'_' || c == b'-'

abbrev pub IsScenarioName : Text → Type 0
IsScenarioName [] = ⊥
IsScenarioName (c ∷ s) = All (λ d. is_scenario_char d ≡ true) (c ∷ s)

var_name_from-parts : (s : Text) → All (λ d. is_identifier_part d ≡ true) (var_name_from false s)
unfolding var_name_from
var_name_from-parts [] = tt
var_name_from-parts (c ∷ s) = ground (arith, var_name_from-parts s)

-- The name made of any text is an IdentifierName of ECMA-262, in ASCII. It may be a reserved word.
pub sanitize_var_name-IsIdentifierName : (s : Text) → IsIdentifierName (sanitize_var_name s)
unfolding sanitize_var_name var_name_from
sanitize_var_name-IsIdentifierName [] = (refl, tt)
sanitize_var_name-IsIdentifierName (c ∷ s) = ground (arith, var_name_from-parts s)

scenario_name_from-chars : (s : Text) → All (λ d. is_scenario_char d ≡ true) (scenario_name_from s)
unfolding scenario_name_from
scenario_name_from-chars [] = tt
scenario_name_from-chars (c ∷ s) = ground (arith, scenario_name_from-chars s)

scenario_name_from-again :
    (s : Text) → scenario_name_from (scenario_name_from s) ≡ scenario_name_from s
unfolding scenario_name_from
scenario_name_from-again [] = refl
scenario_name_from-again (c ∷ s) = ground (arith, scenario_name_from-again s)

-- The scenario name made of any text is one that k6 accepts, and making it again changes nothing.
pub sanitize_scenario_name-IsScenarioName :
    (s : Text)
    → IsScenarioName (sanitize_scenario_name s)
      × (sanitize_scenario_name (sanitize_scenario_name s) ≡ sanitize_scenario_name s)
unfolding sanitize_scenario_name scenario_name_from
sanitize_scenario_name-IsScenarioName [] = (ground arith, refl)
sanitize_scenario_name-IsScenarioName (c ∷ s) =
    ground (arith, scenario_name_from-chars s, scenario_name_from-again s)
