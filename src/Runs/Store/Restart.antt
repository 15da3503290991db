-- ===== src/Runs/Store/Restart.antt =====
-- What MarkInterrupted leaves after a restart of the control plane.
use mathlib.Core.List.{append-nil, append_assoc}
use open_synapse.Prelude.{
  String, eq_iff, ◌≡◌, refl, inl, inr, Bool, false, ◌||◌, none, some, List, [], ◌∷◌, ◌++◌, map,
  arith, if◌then◌else◌, Bool-cases, Option-cases, sym,
}
use open_synapse.Prelude.Int.{ℤ}
use open_synapse.Prelude.Assoc.{string_eq, Map, lookup, insert, lookup-insert}
use text.Mathlib.Text.{◌==◌ as str_eq}
use open_synapse.Prelude.Assoc.{Unique}
use open_synapse.Runs.Store.{Run, RunStore, is_in_flight, in_flight, fail_runs, mark_interrupted}

-- The list holds the id.
unfoldable holds : String → List String → Bool
holds id [] = false
holds id (x ∷ xs) = str_eq x id || holds id xs

-- what the loop makes of a run
abbrev pub interrupted : ℤ → Run → Run
interrupted now r = record r { status = "failed"; ended_at = some now }

fail_runs-lookup :
    (now : ℤ) (id : String) (ids : List String) (s : RunStore) (r : Run)
    → lookup id s.runs ≡ some r
    → lookup id (fail_runs now ids s).runs ≡ some (if holds id ids then interrupted now r else r)
unfolding fail_runs holds
fail_runs-lookup now id [] s r found = ground arith
fail_runs-lookup now id (x ∷ xs) s r found =
    let marked : List (String × String) = s.events ++ (x, "error") ∷ [] in
    elim (Option-cases (lookup x s.runs)) [
      | inl absent ↦
          let same : RunStore = record { runs = s.runs; events = marked } in
          ground (arith, eq_iff x id, fail_runs-lookup now id xs same r found)
      | inr (old, present) ↦
          let failed : RunStore = record {
            runs = insert x (interrupted now old) s.runs;
            events = marked;
          } in
          let shown = lookup-insert x id (interrupted now old) s.runs in
          elim (Bool-cases (str_eq x id)) [
            | inl this ↦
                ground
                  (arith, eq_iff x id, shown, fail_runs-lookup now id xs failed (interrupted now r))
            | inr other ↦ ground (arith, eq_iff x id, shown, fail_runs-lookup now id xs failed r)
          ]
    ]

holds-absent :
    (id : String) (m : Map String Run) → lookup id m ≡ none → holds id (in_flight m) ≡ false
unfolding holds in_flight lookup
holds-absent id [] absent = refl
holds-absent id ((k, v) ∷ m) absent = ground (arith, holds-absent id m)

holds-in_flight :
    (id : String) (m : Map String Run) (r : Run)
    → Unique m
    → lookup id m ≡ some r
    → holds id (in_flight m) ≡ is_in_flight r
unfolding holds in_flight lookup
holds-in_flight id [] r u found = ground arith
holds-in_flight id ((k, v) ∷ m) r u found =
    ground (arith, eq_iff k id, holds-absent id m, holds-in_flight id m r u.1)

fail_runs-events :
    (now : ℤ) (ids : List String) (s : RunStore)
    → (fail_runs now ids s).events ≡ s.events ++ map (λ id. (id, "error")) ids
unfolding fail_runs
fail_runs-events now [] s = sym (append-nil s.events)
fail_runs-events now (x ∷ xs) s =
    let marked : List (String × String) = s.events ++ (x, "error") ∷ [] in
    let rest : List (String × String) = map (λ id. (id, "error")) xs in
    elim (Option-cases (lookup x s.runs)) [
      | inl absent ↦
          let same : RunStore = record { runs = s.runs; events = marked } in
          ground
            (arith, fail_runs-events now xs same, append_assoc s.events ((x, "error") ∷ []) rest)
      | inr (old, present) ↦
          let failed : RunStore = record {
            runs = insert x (interrupted now old) s.runs;
            events = marked;
          } in
          ground
            (arith, fail_runs-events now xs failed, append_assoc s.events ((x, "error") ∷ []) rest)
    ]

-- The run had not ended, and the ids of those that had not.
abbrev pub was_unfinished : Run → Bool
was_unfinished r = str_eq r.status "queued" || str_eq r.status "running"

abbrev pub unfinished : Map String Run → List String
unfinished [] = []
unfinished ((id, r) ∷ m) = let rest = unfinished m in if was_unfinished r then id ∷ rest else rest

in_flight-unfinished : (m : Map String Run) → in_flight m ≡ unfinished m
unfolding in_flight is_in_flight
in_flight-unfinished [] = refl
in_flight-unfinished ((id, r) ∷ m) = ground (arith, in_flight-unfinished m)

-- After a restart every run that was queued or running has failed, and ended at the restart, with one
-- event each; every other run is as it was.
pub mark_interrupted_lem :
    (now : ℤ) (id : String) (s : RunStore) (r : Run)
    → Unique s.runs
    → lookup id s.runs ≡ some r
    → (lookup id (mark_interrupted now s).1.runs
        ≡ some (if was_unfinished r then interrupted now r else r))
      × ((mark_interrupted now s).1.events
          ≡ s.events ++ map (λ k. (k, "error")) (unfinished s.runs))
unfolding mark_interrupted is_in_flight
mark_interrupted_lem now id s r u found = (
  ground (
    arith,
    fail_runs-lookup now id (in_flight s.runs) s r found,
    holds-in_flight id s.runs r u found,
  ),
  rw (← in_flight-unfinished s.runs) (fail_runs-events now (in_flight s.runs) s),
)
