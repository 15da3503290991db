-- ===== src/Runs/Control/Changes.antt =====
-- What a control request changes and records.
use open_synapse.Prelude.{
  String, ◌≡◌, ◌≢◌, ◌⊎◌, true, false, Option, none, some, List, [], ◌∷◌, ◌++◌, map,
}
use open_synapse.Prelude.Int.{wrap64, scale}
use open_synapse.Prelude.Assoc.{string_eq, lookup}
use open_synapse.Engine.Process.{EngineError, RunProcess}
use open_synapse.Engine.Process.Control.{resume_schedule as continue_schedule}
use open_synapse.Engine.Registry.{Engine}
use open_synapse.Runs.Control.{
  Change, to_paused, to_vus, to_schedule, to_rps, to_duration, RunEvent, event_of,
}

-- What a change does to a run at a time: a pause sets or clears the flag and its times; a VU count is
-- the target and the count sent, and the user's from now on; the schedule takes over again; the rate
-- limit is the requested one; the planned end is the requested number of seconds, as an int64 of
-- nanoseconds, and may have been reached. Nothing else changes but the calls of the backend, and the
-- VU ceiling with a VU count.
abbrev pub IsApplied : Change → RunProcess → RunProcess → Type 0
IsApplied (to_paused b) rp rp' = rp' ≡ record rp {
  paused = b;
  paused_at = rp'.paused_at;
  paused_total = rp'.paused_total;
  calls = rp'.calls;
}
IsApplied (to_vus n) rp rp' = rp' ≡ record rp {
  manual_vus = true;
  target_vus = n;
  sent_vus = n;
  vus_max = rp'.vus_max;
  calls = rp'.calls;
}
IsApplied to_schedule rp rp' = rp' ≡ record rp { manual_vus = false }
IsApplied (to_rps n) rp rp' = rp' ≡ record rp { rps_target = n }
IsApplied (to_duration n) rp rp' = rp' ≡ record rp {
  planned_end = wrap64 (scale n 1000000000);
  stop_requested = rp'.stop_requested;
  calls = rp'.calls;
}

-- The changes one after the other.
abbrev pub AreApplied : List Change → RunProcess → RunProcess → Type 0
AreApplied [] rp rp' = rp' ≡ rp
AreApplied (c ∷ cs) rp rp' = (mid : RunProcess) × IsApplied c rp mid × AreApplied cs mid rp'

-- What a refused change leaves: the run as it was, but for the calls made and the VU ceiling.
abbrev pub IsUnchanged : RunProcess → RunProcess → Type 0
IsUnchanged rp rp' = rp' ≡ record rp { vus_max = rp'.vus_max; calls = rp'.calls }

-- How far some changes got: the first of them were applied, one after the other, and recorded, with no
-- error if these are all, and what came next was refused and left the run unchanged. An engine has the run
-- as it is then.
abbrev pub HasApplied :
    String
    → List Change
    → RunProcess
    → Option EngineError × Engine × List (String × RunEvent)
    → Type 0
HasApplied id cs rp (err, e, events) =
    (done : List Change) × (rest : List Change) × (mid : RunProcess) × (rp' : RunProcess) × (cs
      ≡ done ++ rest)
    × (events ≡ map (λ c. (id, event_of c)) done)
    × AreApplied done rp mid
    × (((rest ≡ []) × (err ≡ none) × (rp' ≡ mid))
        ⊎ ((rest ≢ []) × (err ≢ none) × IsUnchanged mid rp'))
    × (lookup id e.active ≡ some rp')
