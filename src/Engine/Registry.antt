-- ===== src/Engine/Registry.antt =====
-- apps/control-plane/internal/engine/engine.go: the engine, which tracks the active runs, and its
-- methods. A method on a run finds it in the map, and acts on it alone.
use open_synapse.Prelude.{
  ℕ, String, eq_iff, ◌≡◌, ◌≢◌, ◌↔◌, ◌⊎◌, inl, inr, Bool, true, false, Option, none, some, [], ◌∷◌,
  arith, if◌then◌else◌, Option-cases, length,
}
use open_synapse.Prelude.Int.{ℤ, pos, ◌≤ℤ◌, ltb_ℤ, leb_ℤ}
use open_synapse.Prelude.Assoc.{string_eq, int_eq, Map, lookup, insert, remove, lookup-insert}
use open_synapse.Float64.{Float64}
use open_synapse.Engine.Process.{
  EngineError, not_active, needs_cluster, too_many_workers, start_failed, Backend, RunSpec,
  RunProcess, Action, request_stop,
}
use open_synapse.Engine.Process.Control.{
  new_process, kill_run, ControlState, control_state_for, LiveState, live_state,
}

-- Engine; `max_workers` is that of cluster mode
pub record Engine : Type 0 where
  pub max_workers : Option ℤ
  pub active : Map String RunProcess

-- UseKubernetes
unfoldable pub use_kubernetes : ℤ → Engine → Engine
use_kubernetes workers e = record e {
  max_workers = some (if leb_ℤ workers (pos 0) then pos 1 else workers);
}

-- Execution: cluster mode or not, and the most workers of a run
unfoldable pub execution : Engine → Bool × ℤ
execution e = elim e.max_workers [ none ↦ (false, pos 1) | some n ↦ (true, n) ]

-- IsRunning
unfoldable pub is_running : String → Engine → Bool
is_running id e = elim (lookup id e.active) [ none ↦ false | some _ ↦ true ]

-- `get`, then an action on the run
unfoldable pub with_run : String → Action → Engine → Option EngineError × Engine
with_run id act e = elim (lookup id e.active) [
  | none ↦ (some not_active, e)
  | some rp ↦ let (err, rp') = act rp in (err, record e { active = insert id rp' e.active })
]

-- State; `vus` is the count that the run's aggregator holds
unfoldable pub state_of : String → ℤ → ℤ → Engine → Option LiveState
state_of id vus now e = elim (lookup id e.active) [
  | none ↦ none
  | some rp ↦ some (live_state vus rp now)
]

-- StopRun
unfoldable pub stop_run : Backend → String → Engine → Option EngineError × Engine
stop_run be id = with_run id (λ rp. (none, request_stop be rp))

-- ControlStateFor, of any run
unfoldable pub control_state : String → String → Engine → Option ControlState
control_state id token e = elim (lookup id e.active) [
  | none ↦ none
  | some rp ↦ control_state_for token rp
]

-- the number of instances: 1 where the spec names none
unfoldable pub at_least_one : ℤ → ℤ
at_least_one n = if leb_ℤ n (pos 0) then pos 1 else n

-- StartRun; `launch` is what startLocal or startKubernetes returns
unfoldable pub start_run :
    Float64 → String → RunSpec → Option String → Engine → Option EngineError × Engine
start_run fl id spec launch e =
    let spec' : RunSpec = record spec { instances = at_least_one spec.instances } in
    let started : Option EngineError × Engine = elim launch [
      | none ↦ (none, record e { active = insert id (new_process fl spec') e.active })
      | some msg ↦ (some start_failed, e)
    ] in
    elim e.max_workers [
      | none ↦ if ltb_ℤ (pos 1) spec'.instances then (some needs_cluster, e) else started
      | some most ↦ if ltb_ℤ most spec'.instances then (some too_many_workers, e) else started
    ]

-- the end of a run: its removal from the map
unfoldable pub finish_run : String → Engine → Engine
finish_run id e = record e { active = remove id e.active }

-- ActiveCount
unfoldable pub active_count : Engine → ℕ
active_count e = length e.active

-- the first loop of Shutdown: every run is marked as killed, and its instances are
unfoldable pub kill_all_runs : Backend → Map String RunProcess → Map String RunProcess
kill_all_runs be [] = []
kill_all_runs be ((id, rp) ∷ m) = (id, (kill_run be rp).1) ∷ kill_all_runs be m

-- Shutdown, up to its wait
unfoldable pub shutdown : Backend → Engine → Engine
shutdown be e = record e { active = kill_all_runs be e.active }

-- An action on one run leaves every other run as it was, and a run that is not active is refused with nothing changed.
pub with_run-other :
    (id other : String) (act : Action) (e : Engine)
    → id ≢ other
    → lookup other (with_run id act e).1.active ≡ lookup other e.active
unfolding with_run
with_run-other id other act e ne = elim (Option-cases (lookup id e.active)) [
  | inl none' ↦ ground arith
  | inr (rp, found) ↦ ground (arith, lookup-insert id other (act rp).1 e.active, eq_iff id other)
]

-- A run starts exactly if it asks for no more workers than the mode allows (one on a local install,
-- the configured maximum in cluster mode) and its instances could be launched. It is then active in
-- its initial state, with at least one instance; otherwise nothing changes.
pub start_run_lem :
    (fl : Float64) (id : String) (spec : RunSpec) (launch : Option String) (e : Engine)
    → ((start_run fl id spec launch e).0 ≡ none
        ↔ ((at_least_one spec.instances ≤ℤ (execution e).1) × (launch ≡ none)))
      × (((start_run fl id spec launch e).0 ≡ none)
            × (lookup id (start_run fl id spec launch e).1.active
                ≡ some (new_process fl (record spec { instances = at_least_one spec.instances })))
          ⊎ ((start_run fl id spec launch e).0 ≢ none) × ((start_run fl id spec launch e).1 ≡ e))
unfolding start_run execution
start_run_lem fl id spec launch e = elim (Option-cases launch) [
  | inl ok ↦ elim (Option-cases e.max_workers) [
    | inl local ↦ ground (
      arith,
      lookup-insert id id (new_process fl (record spec { instances = at_least_one spec.instances }))
          e.active,
      eq_iff id id,
    )
    | inr (most, cluster) ↦ ground (
      arith,
      lookup-insert id id (new_process fl (record spec { instances = at_least_one spec.instances }))
          e.active,
      eq_iff id id,
    )
  ]
  | inr (msg, failed) ↦ elim (Option-cases e.max_workers) [
    | inl local ↦ ground arith
    | inr (most, cluster) ↦ ground arith
  ]
]

-- No caller learns the control state of a run without its token: whoever gets one named a run that is
-- active and has a token, and gave exactly that token.
pub control_state-token :
    (id token : String) (e : Engine) (cs : ControlState)
    → control_state id token e ≡ some cs
    → (rp : RunProcess) × (lookup id e.active ≡ some rp)
      × (rp.spec.control_token ≢ "")
      × (token ≡ rp.spec.control_token)
unfolding control_state control_state_for
control_state-token id token e cs given = elim (Option-cases (lookup id e.active)) [
  | inl absent ↦ ground arith
  | inr (rp, found) ↦ (
    rp,
    found,
    ground (arith, eq_iff token rp.spec.control_token, eq_iff rp.spec.control_token ""),
    ground (arith, eq_iff token rp.spec.control_token, eq_iff rp.spec.control_token ""),
  )
]
