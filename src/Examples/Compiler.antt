-- ===== src/Examples/Compiler.antt =====
-- The theorems on the compiler, at concrete plans.
use open_synapse.Prelude.{
  ◌≡◌, refl, none, some, inr, true, [], ◌∷◌, ℕ, String, Option, if◌then◌else◌, map, arith, ◌↔◌, ◌+◌,
  ◌⊎◌,
}
use open_synapse.Prelude.Int.{ℤ, pos, scale, quot, wrap64, ◌+ℤ◌, ◌≤ℤ◌}
use text.Mathlib.Text.{◌==◌ as str_eq}
use open_synapse.Prelude.Codes.{Text, codes}
use open_synapse.Compiler.Quoting.{
  resolve_var_refs, sanitize_var_name, sanitize_scenario_name, scenario_name_from, pieces_from,
  match_ref, word_to_brace,
}
use open_synapse.Compiler.Quoting.Names.{sanitize_var_name-IsIdentifierName, IsIdentifierName}
use open_synapse.Compiler.Quoting.References.{
  evaluate, evaluate-resolve_var_refs, evaluate_line_break,
}
use open_synapse.Compiler.Profiles.{
  ScenarioProps, Managed, emit_managed, profile_for, scenario_profile, own_profile, checked_profile,
  sum_durations, overridden, managed_vus, max_duration_for, peak_from,
}
use open_synapse.Compiler.Profiles.Ceiling.{emit_managed-ceiling, IsUnder}
use open_synapse.Compiler.Profiles.Overrides.{
  emit_managed_validated, emit_managed_instant, AreTargets, AreStagesOf,
}
use open_synapse.Compiler.Scenarios.{managed_index, add_scenarios}
use open_synapse.Compiler.Scenarios.Managed.{
  managed_index_lem, all_valid, vu_based_count, is_vu_based_at,
}
use open_synapse.Compiler.Scenarios.Keys.{add_scenarios_same_key}
use open_synapse.Runs.Parameters.Validation.{total_of}
use open_synapse.Runs.Parameters.{
  RunParameters, validate_parameters, max_run_duration, max_run_vus, check_stages,
}

abbrev quoted_name : Text
quoted_name = codes "it's"

-- what __v('HOST') runs to
abbrev host : Text → Text
host e = codes "example.com"

evaluate-resolve_var_refs_example :
    evaluate host (resolve_var_refs (codes "https://${HOST}/a`b"))
    ≡ some (codes "https://example.com/a`b")
unfolding pieces_from match_ref word_to_brace
evaluate-resolve_var_refs_example =
    evaluate-resolve_var_refs host (codes "https://${HOST}/a`b") (ground arith)

evaluate_line_break_example :
    evaluate host (resolve_var_refs (b'\r' ∷ b'\n' ∷ codes "${HOST}"))
    ≡ some (b'\n' ∷ codes "example.com")
unfolding pieces_from match_ref word_to_brace
evaluate_line_break_example = evaluate_line_break host (codes "${HOST}") (ground arith) refl

sanitize_var_name-IsIdentifierName_example : IsIdentifierName (sanitize_var_name (codes "1 GET /a"))
sanitize_var_name-IsIdentifierName_example = sanitize_var_name-IsIdentifierName (codes "1 GET /a")

-- the durations of the examples
abbrev pub half_minutes : String → Option ℤ
half_minutes s =
    if str_eq s "30s" then some (pos 30000000000) else if str_eq s "0s" then some (pos 0) else none

abbrev pub five_users : ScenarioProps
five_users = record {
  executor = "constant-vus";
  vus = pos 5;
  start_vus = none;
  max_vus = pos 8;
  duration = "30s";
  iterations = pos 0;
  rate = pos 0;
  time_unit = "";
  pre_alloc_vus = pos 0;
  graceful_stop = "";
  stages = [];
}

abbrev pub five_managed : Managed
five_managed = record {
  profile = record {
    start_vus = pos 5;
    stages = record { duration = pos 30000000000; target = pos 5 } ∷ [];
  };
  max_vus = pos 8;
  planned_duration = pos 30000000000;
  max_duration = pos 330000000000;
}

pub five_users-emit : emit_managed half_minutes five_users none ≡ inr five_managed
unfolding emit_managed profile_for scenario_profile own_profile checked_profile sum_durations
    overridden wrap64 ◌+ℤ◌ managed_vus max_duration_for peak_from quot
five_users-emit = refl

emit_managed-ceiling_example :
    (pos 5 ≤ℤ pos 8)
    × IsUnder (pos 8) five_managed.profile.stages
    × (pos 1 ≤ℤ pos 8)
    × (pos 8 ≤ℤ pos 8)
emit_managed-ceiling_example =
    emit_managed-ceiling half_minutes five_users none five_managed five_users-emit

abbrev pub with_stage : String → RunParameters
with_stage d = record {
  vus_target = pos 0;
  rps_target = pos 0;
  duration_seconds = pos 0;
  stages = record { duration = d; target = pos 20 } ∷ [];
  worker_count = pos 1;
}

with_stage_valid : validate_parameters half_minutes (with_stage "30s") ≡ none
unfolding validate_parameters wrap64 scale check_stages ◌+ℤ◌
with_stage_valid = refl

with_stage_instant : validate_parameters half_minutes (with_stage "0s") ≡ none
unfolding validate_parameters wrap64 scale check_stages ◌+ℤ◌
with_stage_instant = refl

emit_managed_validated_example :
    (m : Managed) × (emit_managed half_minutes five_users (some (with_stage "30s")) ≡ inr m)
    × AreStagesOf half_minutes (with_stage "30s").stages m.profile.stages
    × (m.planned_duration ≡ total_of half_minutes (pos 0) (with_stage "30s").stages)
    × (total_of half_minutes (pos 0) (with_stage "30s").stages ≤ℤ max_run_duration)
    × AreTargets m.profile.stages
    × ((m.max_vus ≤ℤ max_run_vus) ⊎ (m.max_vus ≡ pos 8))
unfolding ◌+ℤ◌
emit_managed_validated_example =
    emit_managed_validated half_minutes five_users (with_stage "30s") with_stage_valid
      (ground arith) ((ground arith, ground arith), tt)

emit_managed_instant_example :
    (m : Managed) × ((emit_managed half_minutes five_users (some (with_stage "0s")) ≡ inr m)
      × ((m.planned_duration ≡ pos 0) × (m.max_duration ≡ pos 300000000000)))
emit_managed_instant_example =
    emit_managed_instant half_minutes five_users (with_stage "0s") with_stage_instant (ground arith)
      (refl, tt)

abbrev arriving : ScenarioProps
arriving = record five_users { executor = "constant-arrival-rate" }

managed_index_lem_example :
    managed_index (some arriving ∷ some five_users ∷ []) ≡ some (some 1)
    ↔ (all_valid (some arriving ∷ some five_users ∷ []) ≡ true)
      × (vu_based_count (some arriving ∷ some five_users ∷ []) ≡ 1)
      × (is_vu_based_at 1 (some arriving ∷ some five_users ∷ []) ≡ true)
managed_index_lem_example = managed_index_lem (some arriving ∷ some five_users ∷ []) 1

abbrev one_digit : ℕ → Text
one_digit n = (b'0' + n) ∷ []

add_scenarios_same_key_example :
    map
      (λ o. o.key)
      (add_scenarios one_digit (codes "shop-3" ∷ codes "shop" ∷ codes "shop" ∷ []) [])
    ≡ codes "shop-3" ∷ codes "shop" ∷ codes "shop-3" ∷ []
unfolding sanitize_scenario_name scenario_name_from
add_scenarios_same_key_example = add_scenarios_same_key one_digit b's' (codes "hop") (refl, tt)
