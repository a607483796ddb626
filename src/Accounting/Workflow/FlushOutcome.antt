-- ===== src/Accounting/Workflow/FlushOutcome.antt =====
-- What `flushBatch` leaves behind, on success and on failure.
use cloud_credit_system.Common.{
  ℕ, ◌+◌, ◌%◌, ◌≡◌, refl, sym, ap, subst, Option, none, some, List, [], ◌∷◌, arith, nat_key, max,
  Result, ok, err,
}
use cloud_credit_system.Common.Int.{u64_mod}
use cloud_credit_system.Common.Maps.{lookup}
use cloud_credit_system.Accounting.Signals.{HeartbeatSignal, TbBatchResult}
use cloud_credit_system.Accounting.Activities.{Activities}
use cloud_credit_system.Accounting.Workflow.State.{
  TenantAccountingState, mark_one, mark_processed, absorb,
}
use cloud_credit_system.Accounting.Workflow.Flush.{
  WorkflowError, next_flush, batch_input, finish_flush, submit_flush, flush_unless_empty,
  flush_batch,
}
use cloud_credit_system.Accounting.Workflow.Seqs.{
  later, later-none, highest, highest_of_all, lookup-mark_processed, last_ack-mark_processed,
}

-- The loop over the batch touches only `ProcessedSeqs` and `LastAck`.
pub mark_processed-keeps :
    (hbs : List HeartbeatSignal) (s : TenantAccountingState)
    → mark_processed hbs s ≡ record s {
      processed_seqs = (mark_processed hbs s).processed_seqs;
      last_ack = (mark_processed hbs s).last_ack;
    }
unfolding mark_processed
mark_processed-keeps [] s = refl
mark_processed-keeps (hb ∷ hbs) s = mark_processed-keeps hbs (mark_one hb s)

-- The sequence numbers and the ack of `s'` are those of `s` with the batch of `s` counted in.
pub record CountsBatch (s s' : TenantAccountingState) : Type 0 where
  pub emptied : s'.cur_batch ≡ []
  pub seqs :
      (c : ℕ)
      → lookup c s'.processed_seqs ≡ later (lookup c s.processed_seqs) (highest c s.cur_batch)
  pub ack : s'.last_ack ≡ max s.last_ack (highest_of_all s.cur_batch)
  pub interval : s'.current_flush_interval ≡ s.current_flush_interval
  pub accounts : s'.account_map ≡ s.account_map
  pub operators : s'.global_operator_ids ≡ s.global_operator_ids
  pub sinks : s'.global_sink_ids ≡ s.global_sink_ids
  pub tenant : s'.tenant_id ≡ s.tenant_id
  pub uuid : s'.tenant_uuid ≡ s.tenant_uuid

absorb-CountsBatch :
    (result : TbBatchResult) (s : TenantAccountingState) → CountsBatch s (absorb result s)
unfolding absorb
absorb-CountsBatch result s = record {
  emptied = refl;
  seqs = λ c. lookup-mark_processed c s.cur_batch _;
  ack = last_ack-mark_processed s.cur_batch _;
  interval =
      ap (λ (t : TenantAccountingState). t.current_flush_interval)
        (mark_processed-keeps s.cur_batch _);
  accounts = ap (λ (t : TenantAccountingState). t.account_map) (mark_processed-keeps s.cur_batch _);
  operators =
      ap (λ (t : TenantAccountingState). t.global_operator_ids)
        (mark_processed-keeps s.cur_batch _);
  sinks =
      ap (λ (t : TenantAccountingState). t.global_sink_ids) (mark_processed-keeps s.cur_batch _);
  tenant = ap (λ (t : TenantAccountingState). t.tenant_id) (mark_processed-keeps s.cur_batch _);
  uuid = ap (λ (t : TenantAccountingState). t.tenant_uuid) (mark_processed-keeps s.cur_batch _);
}

-- On success the batch is counted in; on failure only the flush counter has moved.
abbrev pub FlushOutcome :
    TenantAccountingState → Result WorkflowError (Unit {0}) → TenantAccountingState → Type 0
FlushOutcome s (ok _) s' = CountsBatch s s'
FlushOutcome s (err _) s' = s' ≡ record s { flush_seq_no = (s.flush_seq_no + 1) % u64_mod }

module _ (blake3 : List ℕ → List ℕ) {W : Type 0} (act : Activities W) where
  finish_flush-FlushOutcome :
      (s : TenantAccountingState) (result : Option TbBatchResult) (w : W)
      → let (r, s', w') = finish_flush blake3 act (next_flush s) result w in FlushOutcome s r s'
  unfolding finish_flush
  finish_flush-FlushOutcome s none w = refl
  finish_flush-FlushOutcome s (some result) w =
      let h = absorb-CountsBatch result (next_flush s) in
      record {
        emptied = h.emptied;
        seqs = h.seqs;
        ack = h.ack;
        interval = h.interval;
        accounts = h.accounts;
        operators = h.operators;
        sinks = h.sinks;
        tenant = h.tenant;
        uuid = h.uuid;
      }

  flush_unless_empty-FlushOutcome :
      (b : List HeartbeatSignal) (s : TenantAccountingState) (w : W)
      → s.cur_batch ≡ b
      → let (r, s', w') = flush_unless_empty blake3 act b s w in FlushOutcome s r s'
  unfolding flush_unless_empty submit_flush
  flush_unless_empty-FlushOutcome [] s w e = record {
    emptied = e;
    seqs = λ c.
        subst (λ b. lookup c s.processed_seqs ≡ later (lookup c s.processed_seqs) (highest c b))
          (sym e) (sym (later-none (lookup c s.processed_seqs)));
    ack = subst (λ b. s.last_ack ≡ max s.last_ack (highest_of_all b)) (sym e) (omega arith);
    interval = refl;
    accounts = refl;
    operators = refl;
    sinks = refl;
    tenant = refl;
    uuid = refl;
  }
  flush_unless_empty-FlushOutcome (hb ∷ hbs) s w e =
      let (result, w') = act.submit_tb_batch (batch_input blake3 (next_flush s)) w in
      finish_flush-FlushOutcome s result w'

  -- `flushBatch`, on every branch: if SubmitTBBatch succeeds, the batch is emptied and every sequence
  -- number of the batch is counted in `ProcessedSeqs` and `LastAck` (also where the ledger rejected
  -- the transfer); if it fails, the batch is kept and only `FlushSeqNo` has moved. An empty batch
  -- succeeds, and counts nothing.
  pub flush_batch-FlushOutcome :
      (s : TenantAccountingState) (w : W)
      → let (r, s', w') = flush_batch blake3 act s w in FlushOutcome s r s'
  unfolding flush_batch
  flush_batch-FlushOutcome s w = flush_unless_empty-FlushOutcome s.cur_batch s w refl
