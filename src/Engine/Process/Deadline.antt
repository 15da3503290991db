-- ===== src/Engine/Process/Deadline.antt =====
-- Moving the end of a run while it executes.
use open_synapse.Prelude.{ℕ, suc, ◌+◌, ◌*◌, ◌^◌, ◌<◌, ◌≡◌, ◌↔◌, ◌⊎◌, none, arith}
use open_synapse.Prelude.Int.{ℤ, pos, negsuc, ◌≤ℤ◌, ◌<ℤ◌, wrap64, scale, InInt64, wrap64_id, sub_ℕ}
use open_synapse.Engine.Process.{Backend, RunProcess}
use open_synapse.Engine.Process.Control.{set_duration}
use open_synapse.Engine.Process.Frames.{enforce_deadline_frame}

abbrev pub nanos : ℤ
nanos = pos 1000000000

-- Where the request fits an `int64` of nanoseconds, it is accepted exactly if the run has a planned
-- end, the request is positive, and it is within the hard bound, if there is one.
pub set_duration_accepts :
    (be : Backend) (now seconds : ℤ) (rp : RunProcess)
    → InInt64 (scale seconds 1000000000)
    → (set_duration be now seconds rp).0 ≡ none
      ↔ (pos 0 <ℤ rp.spec.planned_duration)
        × (pos 0 <ℤ seconds)
        × ((rp.spec.max_duration ≤ℤ pos 0) ⊎ (scale seconds 1000000000 ≤ℤ rp.spec.max_duration))
unfolding set_duration scale
set_duration_accepts be now (pos n) rp fits = ground (arith, wrap64_id (pos (n * 1000000000)) fits)
set_duration_accepts be now (negsuc n) rp fits =
    ground (arith, wrap64_id (sub_ℕ 0 (suc n * 1000000000)) fits)

wrap64_small : (n d m : ℕ) → n ≡ d + 2 ^ 64 * m → d < 2 ^ 63 → wrap64 (pos n) ≡ pos d
unfolding wrap64
wrap64_small n d m e h = ground arith

-- The product of the request and a second can overflow: a request of `n` seconds that is `d`
-- nanoseconds modulo 2 ^ 64 is accepted where `d` is positive and within the hard bound, however far
-- beyond the bound `n` seconds are, and moves the end of the run to `d` nanoseconds.
pub set_duration_wraps :
    (be : Backend) (now : ℤ) (n d m : ℕ) (rp : RunProcess)
    → n * 1000000000 ≡ d + 2 ^ 64 * m
    → 0 < d
    → d < 2 ^ 63
    → pos 0 <ℤ rp.spec.planned_duration
    → pos d ≤ℤ rp.spec.max_duration
    → ((set_duration be now (pos n) rp).0 ≡ none)
      × ((set_duration be now (pos n) rp).1.planned_end ≡ pos d)
unfolding set_duration scale
set_duration_wraps be now n d m rp e low high plan bound =
    let moved : RunProcess = record rp { planned_end = pos d } in
    ground (arith, wrap64_small (n * 1000000000) d m e high, enforce_deadline_frame be now moved)
