-- ===== src/Compiler/Scenarios.antt =====
-- apps/control-plane/internal/compiler/compiler.go: which scenario of a plan the engine drives, and
-- the keys and function names of the scenarios in the script.
pub mod Managed
pub mod Keys
use open_synapse.Prelude.{
  ℕ, zero, suc, ◌+◌, ◌≡◌, Bool, true, false, ◌&&◌, Option, none, some, List, [], ◌∷◌, ◌++◌, ltb,
  ◌==◌, if◌then◌else◌, length,
}
use open_synapse.Prelude.Codes.{Text, codes, replace_char, eqb_text}
use open_synapse.Compiler.Profiles.{ScenarioProps, is_vu_based}
use open_synapse.Compiler.Quoting.{sanitize_scenario_name, sanitize_var_name}

-- The loop of compilePlan over the scenarios of a managed plan: how many of them are VU-based, and the
-- index of the first one; none where the properties of a scenario are not valid JSON.
unfoldable pub count_vu_based :
    ℕ → ℕ → Option ℕ → List (Option ScenarioProps) → Option (ℕ × Option ℕ)
count_vu_based i n first [] = some (n, first)
count_vu_based i n first (none ∷ ss) = none
count_vu_based i n first (some p ∷ ss) =
    let is_vu = is_vu_based p.executor in
    count_vu_based (i + 1) (if is_vu then n + 1 else n)
      (if is_vu then (elim first [ none ↦ some i | some j ↦ some j ]) else first) ss

-- managedIdx after the loop, where -1 is none
unfoldable pub managed_index : List (Option ScenarioProps) → Option (Option ℕ)
managed_index ss = elim (count_vu_based 0 0 none ss) [
  | none ↦ none
  | some (n, first) ↦ some (if ltb 1 n then none else first)
]

-- managedIdx for a managed plan: one without scenarios gets a scenario with the constant-vus executor,
-- which the engine drives
unfoldable pub driven_index : List (Option ScenarioProps) → Option (Option ℕ)
driven_index [] = some (some 0)
driven_index (s ∷ ss) = managed_index (s ∷ ss)

-- scenarioOut, its key and function name
pub record ScenarioOut : Type 0 where
  pub key : Text
  pub fn : Text

-- the name of the function
unfoldable pub scenario_fn : Text → Text
scenario_fn key = codes "scenario_" ++ replace_char b'-' (b'_' ∷ []) (sanitize_var_name key)

module _ (decimal : ℕ → Text) where
  -- the loop of emitScenario that looks for a key among the scenarios so far; `decimal` prints a
  -- number, here one more than the scenarios so far
  unfoldable pub free_key : ℕ → Text → List ScenarioOut → Text
  free_key n key [] = key
  free_key n key (s ∷ ss) =
      free_key n (if eqb_text s.key key then key ++ b'-' ∷ decimal (n + 1) else key) ss

  abbrev pub scenario_key : Text → List ScenarioOut → Text
  scenario_key name ss = free_key (length ss) (sanitize_scenario_name name) ss

  -- emitScenario, as to the key and the function, which it appends to the scenarios so far
  unfoldable pub add_scenario : Text → List ScenarioOut → List ScenarioOut
  add_scenario name ss =
      let key = scenario_key name ss in ss ++ record { key = key; fn = scenario_fn key } ∷ []

  -- the loop of compilePlan over the scenarios
  unfoldable pub add_scenarios : List Text → List ScenarioOut → List ScenarioOut
  add_scenarios [] ss = ss
  add_scenarios (name ∷ names) ss = add_scenarios names (add_scenario name ss)
