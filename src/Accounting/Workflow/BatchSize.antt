-- ===== src/Accounting/Workflow/BatchSize.antt =====
-- The batch stays below the threshold as long as flushes succeed.
use cloud_credit_system.Common.{
  ℕ, ◌<◌, ◌≡◌, refl, subst, inl, inr, some, List, [], ◌∷◌, arith, Bool-cases, nat_key, length, ok,
}
use cloud_credit_system.Common.Maps.{lookup}
use cloud_credit_system.Accounting.Signals.{HeartbeatSignal, TbBatchInput, TbBatchResult}
use cloud_credit_system.Accounting.Activities.{Activities}
use cloud_credit_system.Accounting.Workflow.State.{
  TenantAccountingState, TenantAccountingInput, advances, batch_size_threshold, start,
}
use cloud_credit_system.Accounting.Workflow.Flush.{
  next_flush, batch_input, finish_flush, submit_flush, flush_unless_empty, flush_batch,
  flush_adjustment, finish_adjustment,
}
use cloud_credit_system.Accounting.Workflow.Loop.{
  Event, heartbeat, register, timer, credit, history_limit, receive_register, receive_heartbeat,
  accept_heartbeat, timer_fired, issue_credit, continue_as_new, step, run_rounds,
}
use cloud_credit_system.Accounting.Workflow.FlushOutcome.{
  CountsBatch, FlushOutcome, flush_batch-FlushOutcome,
}

abbrev pub IsSmall : TenantAccountingState → Type 0
IsSmall s = length s.cur_batch < batch_size_threshold

module _ (blake3 : List ℕ → List ℕ) {W : Type 0} (act : Activities W)
    (submits : (i : TbBatchInput) (w : W)
      → (r : TbBatchResult) × ((act.submit_tb_batch i w).0 ≡ some r)) where
  flush_succeeds :
      (b : List HeartbeatSignal) (s : TenantAccountingState) (w : W)
      → (flush_unless_empty blake3 act b s w).0 ≡ ok tt
  unfolding flush_unless_empty submit_flush finish_flush
  flush_succeeds [] s w = refl
  flush_succeeds (hb ∷ hbs) s w =
      let (r, e) = submits (batch_input blake3 (next_flush s)) w in ground (arith, e)

  flush_batch_succeeds :
      (s : TenantAccountingState) (w : W) → (flush_batch blake3 act s w).0 ≡ ok tt
  unfolding flush_batch
  flush_batch_succeeds s w = flush_succeeds s.cur_batch s w

  flush_empties :
      (s : TenantAccountingState) (w : W) → (flush_batch blake3 act s w).1.cur_batch ≡ []
  flush_empties s w =
      let counted : CountsBatch s (flush_batch blake3 act s w).1 =
        subst (λ r. FlushOutcome s r (flush_batch blake3 act s w).1) (flush_batch_succeeds s w)
          (flush_batch-FlushOutcome blake3 act s w) in
      counted.emptied

  accept-IsSmall : (s : TenantAccountingState) (w : W) → IsSmall (accept_heartbeat blake3 act s w).0
  unfolding accept_heartbeat
  accept-IsSmall s w = ground (arith, flush_empties s w)

  heartbeat-IsSmall :
      (sig : HeartbeatSignal) (s : TenantAccountingState) (w : W)
      → IsSmall s
      → IsSmall (receive_heartbeat blake3 act sig s w).0
  unfolding receive_heartbeat
  heartbeat-IsSmall sig s w h =
      elim (Bool-cases (advances (lookup sig.cluster_id s.processed_seqs) sig.sequence_number)) [
        | inl e ↦ rw e (accept-IsSmall _ w)
        | inr e ↦ rw e h
      ]

  step-IsSmall :
      (e : Event) (s : TenantAccountingState) (w : W)
      → IsSmall s
      → IsSmall (step blake3 act e s w).0
  unfolding step timer_fired continue_as_new start receive_register issue_credit flush_adjustment
      finish_adjustment
  step-IsSmall (heartbeat sig) s w h = heartbeat-IsSmall sig s w h
  step-IsSmall (register sig) s w h = ground arith
  step-IsSmall timer s w h = ground (arith, flush_empties s w)
  step-IsSmall (credit sig) s w h = ground arith
  step-IsSmall history_limit s w h = omega arith

  start-IsSmall : (i : TenantAccountingInput) → IsSmall (start i)
  unfolding start
  start-IsSmall i = omega arith

  run-IsSmall :
      (es : List Event) (s : TenantAccountingState) (w : W)
      → IsSmall s
      → IsSmall (run_rounds blake3 act es s w).0
  unfolding run_rounds
  run-IsSmall [] s w h = h
  run-IsSmall (e ∷ es) s w h =
      let (s', w') = step blake3 act e s w in run-IsSmall es s' w' (step-IsSmall e s w h)

  -- If SubmitTBBatch always succeeds in the end, the batch holds fewer than 150 heartbeats between
  -- any two rounds of any run, whatever the order of signals, timers and updates.
  pub batch_below_threshold :
      (i : TenantAccountingInput) (es : List Event) (w : W)
      → length (run_rounds blake3 act es (start i) w).0.cur_batch < batch_size_threshold
  batch_below_threshold i es w = run-IsSmall es (start i) w (start-IsSmall i)
