-- ===== src/Runs/Store.antt =====
-- apps/control-plane/internal/db/runs.go: the status of the runs in the database, and the events that
-- MarkInterrupted records. A table is a map from the run's id to the columns modelled here.
pub mod Restart
pub mod Order
use open_synapse.Prelude.{
  ℕ, ◌+◌, ◌*◌, ◌^◌, ◌≤◌, ◌<◌, String, eq_iff, ◌≡◌, refl, ◌≢◌, ◌↔◌, ◌⊎◌, inl, inr, Bool, true, false,
  not, ◌&&◌, ◌||◌, Option, none, some, List, [], ◌∷◌, ◌++◌, map, arith, ltb, leb, if◌then◌else◌,
  Bool-cases, Option-cases, All, Any, length,
}
use open_synapse.Prelude.Int.{
  ℤ, pos, negsuc, pos_part, neg_part, ◌+ℤ◌, ◌≤ℤ◌, ◌<ℤ◌, ltb_ℤ, leb_ℤ, wrap64, scale, InInt64,
  wrap64_id, int_laws, +ℤ_parts,
}
use open_synapse.Prelude.Assoc.{Eq, string_eq, Map, lookup, insert, lookup-insert}
use text.Mathlib.Text.{◌==◌ as str_eq}
use open_synapse.Runs.Control.{
  ControlRequest, Change, RunEvent, Reply, engine_not_available, invalid_json, run_not_active, live,
  control_unsupported, control_rejected, RunHandlers, requested, event_of, action_of, apply_changes,
  control, reply_to,
}

-- Run: its status, and when it began and ended
pub record Run : Type 0 where
  pub status : String
  pub started_at : Option ℤ
  pub ended_at : Option ℤ

-- RunStore; of an event, its run and its type
pub record RunStore : Type 0 where
  pub runs : Map String Run
  pub events : List (String × String)

-- the assignments of UpdateStatus to one row
unfoldable pub with_status : ℤ → String → Run → Run
with_status now status r =
    if str_eq status "running"
    then record r { status = status; started_at = some now }
    else if str_eq status "completed" || str_eq status "failed" || str_eq status "aborted"
    then record r { status = status; ended_at = some now }
    else record r { status = status }

-- UpdateStatus; an update of no row is no error
unfoldable pub update_status : ℤ → String → String → RunStore → RunStore
update_status now id status s = elim (lookup id s.runs) [
  | none ↦ s
  | some r ↦ record s { runs = insert id (with_status now status r) s.runs }
]

-- the rows in flight
unfoldable pub is_in_flight : Run → Bool
is_in_flight r = str_eq r.status "queued" || str_eq r.status "running"

unfoldable pub in_flight : Map String Run → List String
in_flight [] = []
in_flight ((id, r) ∷ m) = let rest = in_flight m in if is_in_flight r then id ∷ rest else rest

-- the loop of MarkInterrupted: each of these runs fails, with an event
unfoldable pub fail_runs : ℤ → List String → RunStore → RunStore
fail_runs now [] s = s
fail_runs now (id ∷ ids) s =
    let failed : Map String Run = elim (lookup id s.runs) [
      | none ↦ s.runs
      | some r ↦ insert id (record r { status = "failed"; ended_at = some now }) s.runs
    ] in
    fail_runs now ids (record { runs = failed; events = s.events ++ (id, "error") ∷ [] })

-- MarkInterrupted
unfoldable pub mark_interrupted : ℤ → RunStore → ℕ × RunStore
mark_interrupted now s = let ids = in_flight s.runs in (length ids, fail_runs now ids s)
