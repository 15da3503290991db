-- ===== src/K6Output/Delivery.antt =====
-- What the control plane receives over a sequence of flushes.
use open_synapse.Prelude.{
  ℕ, ◌+◌, String, ◌≡◌, refl, inl, inr, Bool, true, false, none, some, List, [], ◌∷◌, arith,
  if◌then◌else◌, Bool-cases, All,
}
use open_synapse.Prelude.Int.{ℤ}
use open_synapse.Prelude.Assoc.{string_eq, int_eq}
use open_synapse.Float64.{Float64}
use open_synapse.K6Output.{K6Sample, Batch, fold}
use open_synapse.K6Output.Counts.{Measure, samples_amount, rows_amount, fold-amount}
use open_synapse.K6Output.Sending.{empty_batch, is_rejected}
use open_synapse.K6Output.Sending.{
  Answer, Output, no_answer, answered, pending_batch, flushed, flush, send_locked, is_taken,
}

-- An attempt to post a batch: whether the control plane takes it in, and what answer arrives.
pub record Attempt : Type 0 where
  pub processed : Bool
  pub answer : Answer

-- one flush: its time, the samples that were buffered, and its attempt
pub record Round (fl : Float64) : Type 0 where
  pub now : ℤ
  pub samples : List (K6Sample fl)
  pub attempt : Attempt

-- An answer that arrives tells what the control plane did with the batch: it took in a batch that it
-- accepted, and no other; it rejects none for good; and if it took one in, its answer arrives.
abbrev pub IsReliable : Attempt → Type 0
IsReliable t = (t.processed ≡ is_taken t.answer) × (is_rejected t.answer ≡ false)

module _ (fl : Float64) (atoi : String → ℤ) where
  -- the rounds of the flusher: what is left to send, and what the control plane has taken in
  unfoldable pub flush_all : List (Round fl) → Output fl → Output fl × List (Batch fl)
  flush_all [] o = (o, [])
  flush_all (r ∷ rs) o =
      let posted = flushed fl atoi r.now r.samples o in
      let (o', taken) = flush_all rs (flush fl atoi r.now r.samples r.attempt.answer o) in
      (o', if r.attempt.processed then posted ∷ taken else taken)

  abbrev pub received_amount : (ℤ → Bool) → Measure → List (Batch fl) → ℕ
  received_amount p c [] = 0
  received_amount p c (b ∷ bs) = rows_amount fl p c b.seconds + received_amount p c bs

  abbrev pub rounds_amount : (ℤ → Bool) → Measure → List (Round fl) → ℕ
  rounds_amount p c [] = 0
  rounds_amount p c (r ∷ rs) = samples_amount fl p c r.samples + rounds_amount p c rs

  -- what waits to be sent
  abbrev pub waiting_amount : (ℤ → Bool) → Measure → Output fl → ℕ
  waiting_amount p c o = rows_amount fl p c (pending_batch fl o).seconds

  send_locked-kept :
      (answer : Answer) (b : Batch fl)
      → is_rejected answer ≡ false
      → (send_locked fl answer b).1 ≡ (if is_taken answer then none else some b)
  unfolding send_locked is_rejected is_taken
  send_locked-kept no_answer b h = refl
  send_locked-kept (answered status) b h = ground (arith, h)

  flush-waiting :
      (p : ℤ → Bool) (c : Measure) (r : Round fl) (o : Output fl)
      → IsReliable r.attempt
      → waiting_amount p c (flush fl atoi r.now r.samples r.attempt.answer o)
          + (if r.attempt.processed
              then rows_amount fl p c (flushed fl atoi r.now r.samples o).seconds
              else 0)
        ≡ waiting_amount p c o + samples_amount fl p c r.samples
  unfolding flush flushed pending_batch empty_batch
  flush-waiting p c r o h =
      let posted = flushed fl atoi r.now r.samples o in
      let folded = fold-amount fl atoi p c r.samples (pending_batch fl o) in
      let kept = send_locked-kept r.attempt.answer posted h.1 in
      elim (Bool-cases (is_taken r.attempt.answer)) [
        | inl taken ↦ ground (arith, h.0, taken, kept, folded)
        | inr refused ↦ ground (arith, h.0, refused, kept, folded)
      ]

  -- With a reliable control plane every sample is delivered exactly once or still waits to be sent: over
  -- any rounds, the batches taken in and the batch that waits count what waited before and the samples
  -- of the rounds, however often attempts fail in between.
  pub flush_all-delivers :
      (p : ℤ → Bool) (c : Measure) (rs : List (Round fl)) (o : Output fl)
      → All (λ r. IsReliable r.attempt) rs
      → received_amount p c (flush_all rs o).1 + waiting_amount p c (flush_all rs o).0
        ≡ waiting_amount p c o + rounds_amount p c rs
  unfolding flush_all
  flush_all-delivers p c [] o h = omega arith
  flush_all-delivers p c (r ∷ rs) o h =
      let o' = flush fl atoi r.now r.samples r.attempt.answer o in
      ground (arith, flush-waiting p c r o h.0, flush_all-delivers p c rs o' h.1)

  -- Where an answer is lost, the batch counts twice: if the control plane takes in a batch whose answer
  -- does not arrive, and the next round has no samples and is answered, it takes in the first round's
  -- samples again.
  pub flush_lost_answer :
      (p : ℤ → Bool) (c : Measure) (now later : ℤ) (ss : List (K6Sample fl)) (o : Output fl)
      → o.pending ≡ none
      → received_amount p c
          (flush_all
            (record {
              now = now;
              samples = ss;
              attempt = record { processed = true; answer = no_answer };
            }
              ∷ record {
                now = later;
                samples = [];
                attempt = record { processed = true; answer = answered 204 };
              }
              ∷ [])
            o).1
        ≡ samples_amount fl p c ss + samples_amount fl p c ss
  unfolding flush_all flush flushed pending_batch empty_batch send_locked fold
  flush_lost_answer p c now later ss o fresh =
      let once = fold fl atoi ss (empty_batch fl) in
      ground (arith, fresh, fold-amount fl atoi p c ss (empty_batch fl))
