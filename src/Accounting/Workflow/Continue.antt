-- ===== src/Accounting/Workflow/Continue.antt =====
-- Continue-As-New.
use cloud_credit_system.Common.{ℕ, ◌≡◌, refl, subst, max, none, List, [], ◌∷◌, arith, nat_key, ok}
use cloud_credit_system.Common.Maps.{lookup}
use cloud_credit_system.Accounting.Signals.{HeartbeatSignal}
use cloud_credit_system.Accounting.Activities.{Activities}
use cloud_credit_system.Accounting.Workflow.State.{
  TenantAccountingState, TenantAccountingInput, base_flush_interval, start, carry,
}
use cloud_credit_system.Accounting.Workflow.Flush.{
  next_flush, batch_input, finish_flush, submit_flush, flush_unless_empty, flush_batch,
}
use cloud_credit_system.Accounting.Workflow.Loop.{continue_as_new}
use cloud_credit_system.Accounting.Workflow.Seqs.{later, highest, highest_of_all}
use cloud_credit_system.Accounting.Workflow.FlushOutcome.{
  CountsBatch, FlushOutcome, flush_batch-FlushOutcome,
}

-- What the next run inherits: all but the batch and the interval.
pub carry-start : (i : TenantAccountingInput) → carry (start i) ≡ i
unfolding carry start
carry-start i = refl

module _ (blake3 : List ℕ → List ℕ) {W : Type 0} (act : Activities W) where
  -- If its flush succeeds, a continuation as new loses nothing: the next run starts with every
  -- sequence number of the batch counted in `ProcessedSeqs` and `LastAck`, with the pending gauge IDs,
  -- the exceeded flags and the flush counter that the flush left, with an empty batch, with the base
  -- interval, and with the tenant, its accounts and the operator and sink accounts as they were.
  pub continue_as_new_keeps :
      (s : TenantAccountingState) (w : W)
      → (flush_batch blake3 act s w).0 ≡ ok tt
      → let (s', w') = continue_as_new blake3 act s w in
        let (_, f, _) = flush_batch blake3 act s w in
        ((c : ℕ)
          → lookup c s'.processed_seqs ≡ later (lookup c s.processed_seqs) (highest c s.cur_batch))
        × (s'.last_ack ≡ max s.last_ack (highest_of_all s.cur_batch))
        × (s'.pending_gauge_ids ≡ f.pending_gauge_ids)
        × (s'.exceeded_resources ≡ f.exceeded_resources)
        × (s'.flush_seq_no ≡ f.flush_seq_no)
        × (s'.cur_batch ≡ [])
        × (s'.current_flush_interval ≡ base_flush_interval)
        × (s'.account_map ≡ s.account_map)
        × (s'.global_operator_ids ≡ s.global_operator_ids)
        × (s'.global_sink_ids ≡ s.global_sink_ids)
        × (s'.tenant_id ≡ s.tenant_id)
        × (s'.tenant_uuid ≡ s.tenant_uuid)
  unfolding continue_as_new carry start
  continue_as_new_keeps s w success =
      let counted : CountsBatch s (flush_batch blake3 act s w).1 =
        subst (λ r. FlushOutcome s r (flush_batch blake3 act s w).1) success
          (flush_batch-FlushOutcome blake3 act s w) in
      (
        counted.seqs, counted.ack, refl, refl, refl, refl, refl, counted.accounts,
        counted.operators, counted.sinks, counted.tenant, counted.uuid,
      )

  -- The next run starts with an empty batch also if that flush failed. The heartbeats of the batch
  -- are then neither in the batch nor in `ProcessedSeqs`, although they have not been submitted.
  pub continue_as_new_loses :
      (s : TenantAccountingState) (w : W) {hb : HeartbeatSignal} {hbs : List HeartbeatSignal}
      → s.cur_batch ≡ hb ∷ hbs
      → (act.submit_tb_batch (batch_input blake3 (next_flush s)) w).0 ≡ none
      → let (s', w') = continue_as_new blake3 act s w in
        (s'.cur_batch ≡ [])
        × (s'.processed_seqs ≡ s.processed_seqs)
        × (s'.last_ack ≡ s.last_ack)
        × (w' ≡ (act.submit_tb_batch (batch_input blake3 (next_flush s)) w).1)
  unfolding continue_as_new carry start flush_batch flush_unless_empty submit_flush finish_flush
  continue_as_new_loses s w e fails = ground arith
