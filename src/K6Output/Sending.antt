-- ===== src/K6Output/Sending.antt =====
-- apps/k6-output/output.go: flush, Stop and sendLocked. A batch is what is posted; the answer of the
-- control plane, or its absence, is an argument.
use open_synapse.Prelude.{
  ℕ, String, Bool, true, false, not, ◌&&◌, Option, none, some, List, [], ltb, leb, ◌==◌,
  if◌then◌else◌,
}
use open_synapse.Prelude.Int.{ℤ, pos, ◌-ℤ◌}
use open_synapse.Prelude.Assoc.{string_eq, int_eq}
use open_synapse.Float64.{Float64}
use open_synapse.Engine.Instances.{zero_time}
use open_synapse.K6Output.{K6Sample, Batch, fold}

-- what becomes of a request: it is not made or gets no answer, or the status of the answer
pub data Answer : Type 0 where
  no_answer : Answer
  answered : ℕ → Answer

-- Output, its instance's name and the batch that is not sent yet
pub record Output (fl : Float64) : Type 0 where
  pub instance_name : String
  pub pending : Option (Batch fl)

-- the status is that of a request that a retry cannot help
unfoldable pub is_rejection : ℕ → Bool
is_rejection status = leb 400 status && ltb status 500 && not (status == 429)

-- the answer says that the batch was taken
unfoldable pub is_taken : Answer → Bool
is_taken no_answer = false
is_taken (answered status) = ltb status 300

-- the answer rejects the batch for good
unfoldable pub is_rejected : Answer → Bool
is_rejected no_answer = false
is_rejected (answered status) = is_rejection status

module _ (fl : Float64) where
  -- &Batch{}; the zero time is far in the past
  unfoldable pub empty_batch : Batch fl
  empty_batch = record {
    sender = "";
    through = zero_time;
    seconds = [];
    endpoints = [];
    checks = [];
    errors = [];
    final = false;
  }

  unfoldable pub pending_batch : Output fl → Batch fl
  pending_batch o = elim o.pending [ none ↦ empty_batch | some b ↦ b ]

  -- sendLocked: whether it fails, and what is pending afterwards
  unfoldable pub send_locked : Answer → Batch fl → Bool × Option (Batch fl)
  send_locked no_answer b = (true, some b)
  send_locked (answered status) b =
      if is_rejection status
      then (true, none)
      else if leb 300 status
      then (true, some b)
      else (false, none)

  -- the batch that flush posts
  unfoldable pub flushed : (String → ℤ) → ℤ → List (K6Sample fl) → Output fl → Batch fl
  flushed atoi now samples o = record (fold fl atoi samples (pending_batch o)) {
    through = now -ℤ pos 1000000000;
    sender = o.instance_name;
  }

  -- flush
  unfoldable pub flush : (String → ℤ) → ℤ → List (K6Sample fl) → Answer → Output fl → Output fl
  flush atoi now samples answer o = record o {
    pending = (send_locked answer (flushed atoi now samples o)).1;
  }

  -- the batch that Stop posts, after the last flush
  unfoldable pub last_batch : ℤ → Output fl → Batch fl
  last_batch now o = record (pending_batch o) {
    final = true;
    through = now;
    sender = o.instance_name;
  }

  -- Stop, without the flusher's last flush
  unfoldable pub stop : ℤ → Answer → Output fl → Bool × Output fl
  stop now answer o =
      let (failed, left) = send_locked answer (last_batch now o) in
      (failed, record o { pending = left })
