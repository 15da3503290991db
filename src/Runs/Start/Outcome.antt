-- ===== src/Runs/Start/Outcome.antt =====
-- How a request to start a run ends.
use mathlib.Core.Option
use open_synapse.Prelude.{
  String, ◌≡◌, ◌⊎◌, Bool, true, false, Option, none, some, [], ◌∷◌, ◌++◌, ◌&&◌, if◌then◌else◌,
}
use open_synapse.Prelude.Assoc.{lookup, string_eq}
use text.Mathlib.Text.{◌==◌ as str_eq}
use open_synapse.Float64.{Float64}
use open_synapse.Engine.Process.{RunSpec}
use open_synapse.Engine.Process.Control.{new_process}
use open_synapse.Engine.Registry.{Engine}
use open_synapse.Runs.Store.{Run, RunStore, with_status}
use open_synapse.Runs.Start.{StartReply, created, engine_error, Server, Services}

-- the row of a run is there with a status, and began or ended at a time
abbrev pub HasRow : String → Run → RunStore → Type 0
HasRow id row runs = lookup id runs.runs ≡ some row

abbrev pub is_created : StartReply → Bool
is_created (created id) = true
is_created _ = false

-- Nothing has changed, and no run was created.
abbrev pub IsRefusal : Server → StartReply × Server → Type 0
IsRefusal s out = (out.1 ≡ s) × (is_created out.0 ≡ false)

abbrev pub queued_row : Run
queued_row = record { status = "queued"; started_at = none; ended_at = none }

-- An event is there at the end, if the database takes it.
abbrev pub HasEvent : Services → String → String → RunStore → RunStore → Type 0
HasEvent sv id kind before after =
    after.events ≡ before.events ++ (if sv.stores_event kind then (id, kind) ∷ [] else [])

-- A run was recorded, but it could not be started: its row and an event say that it failed, as far as
-- the database takes them, and else the row is queued; and the engine is as it was.
abbrev pub IsFailure : Services → Server → StartReply × Server → Type 0
IsFailure sv s out =
    (id : String) × (out.0 ≡ engine_error)
    × (out.1.engine ≡ s.engine)
    × HasRow id
        (if sv.stores_status "failed"
          then record { status = "failed"; started_at = none; ended_at = some sv.now }
          else queued_row)
        out.1.runs
    × HasEvent sv id "error" s.runs out.1.runs

-- A run was started. When StartRun returned, it was active in the engine in the initial state of its
-- spec, and its row was queued. Then the other goroutines did what they did; and after that the
-- engine and the other rows are as these left them, its own row, if there is one, was set running from
-- now on, and an event was added, as far as the database takes them.
abbrev pub IsStart : Float64 → Services → Server → StartReply × Server → Type 0
IsStart fl sv s out =
    (id : String) × (spec : RunSpec) × (e : Engine) × (queued : RunStore) × (out.0 ≡ created id)
    × (lookup id e.active ≡ some (new_process fl spec))
    × HasRow id queued_row queued
    × (queued.events ≡ s.runs.events)
    × (let later = sv.meanwhile id (record { engine = some e; runs = queued }) in
        (out.1.engine ≡ later.engine)
        × ((k : String)
            → lookup k out.1.runs.runs ≡ (
                if sv.stores_status "running" && str_eq id k
                then Option.map (with_status sv.now "running") (lookup k later.runs.runs)
                else lookup k later.runs.runs))
        × HasEvent sv id "start" later.runs out.1.runs)

abbrev pub HasEnded : Float64 → Services → Server → StartReply × Server → Type 0
HasEnded fl sv s out = IsRefusal s out ⊎ IsFailure sv s out ⊎ IsStart fl sv s out
