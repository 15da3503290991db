-- ===== src/Runs/Store/Order.antt =====
-- The order in which Start and finishRun of apps/control-plane/internal/handlers/runs.go, which run at
-- the same time, set the status of a run.
use open_synapse.Prelude.{String, eq_iff, ◌≡◌, ◌⊎◌, some, arith}
use open_synapse.Prelude.Int.{ℤ}
use open_synapse.Prelude.Assoc.{string_eq, lookup, lookup-insert}
use open_synapse.Runs.Store.{Run, RunStore, with_status, update_status}

-- The status of a run that has ended.
abbrev pub IsFinal : String → Type 0
IsFinal status = (status ≡ "completed") ⊎ (status ≡ "failed") ⊎ (status ≡ "aborted")

update_status-lookup :
    (now : ℤ) (id status : String) (s : RunStore) (r : Run)
    → lookup id s.runs ≡ some r
    → lookup id (update_status now id status s).runs ≡ some (with_status now status r)
unfolding update_status
update_status-lookup now id status s r found =
    ground (arith, eq_iff id id, lookup-insert id id (with_status now status r) s.runs)

with_status-final :
    (now : ℤ) (status : String) (r : Run)
    → IsFinal status
    → with_status now status r ≡ record r { status = status; ended_at = some now }
unfolding with_status
with_status-final now status r final = ground (
  arith,
  eq_iff status "completed",
  eq_iff status "failed",
  eq_iff status "aborted",
  eq_iff status "running",
  eq_iff "completed" "running",
  eq_iff "failed" "running",
  eq_iff "aborted" "running",
)

with_status-running :
    (now : ℤ) (r : Run)
    → with_status now "running" r ≡ record r { status = "running"; started_at = some now }
unfolding with_status
with_status-running now r = ground (arith, eq_iff "running" "running")

-- Start sets the status to running after it has started the engine's run, and finishRun sets the final status
-- when that run ends. In this order the run is final; in the other one it has ended and its status is
-- running.
pub update_status_order :
    (id status : String) (began ended : ℤ) (s : RunStore) (r : Run)
    → lookup id s.runs ≡ some r
    → IsFinal status
    → (lookup id (update_status ended id status (update_status began id "running" s)).runs
        ≡ some (record { status = status; started_at = some began; ended_at = some ended }))
      × (lookup id (update_status began id "running" (update_status ended id status s)).runs
          ≡ some (record { status = "running"; started_at = some began; ended_at = some ended }))
update_status_order id status began ended s r found final =
    let first = update_status-lookup began id "running" s r found in
    let late = update_status-lookup ended id status s r found in
    (
      ground (
        arith,
        update_status-lookup ended id status (update_status began id "running" s)
            (with_status began "running" r) first,
        with_status-final ended status (with_status began "running" r) final,
        with_status-running began r,
      ),
      ground (
        arith,
        update_status-lookup began id "running" (update_status ended id status s)
            (with_status ended status r) late,
        with_status-final ended status r final,
        with_status-running began (with_status ended status r),
      ),
    )
