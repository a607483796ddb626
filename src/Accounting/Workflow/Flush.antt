-- ===== src/Accounting/Workflow/Flush.antt =====
-- `flushBatch` and `flushAdjustment`.
use cloud_credit_system.Common.{
  ℕ, ◌+◌, ◌%◌, Option, none, some, List, [], ◌∷◌, nat_key, if◌then◌else◌, Result, ok, err,
}
use cloud_credit_system.Common.Int.{pos, u64_mod}
use cloud_credit_system.Common.Maps.{lookup, insert, erase}
use cloud_credit_system.Domain.Resource.{
  ResourceType, resource_key, all_resources, ledger_id, is_gauge,
}
use cloud_credit_system.Ledger.Ids.{
  derive_allocation_transfer_id, derive_gauge_pending_id, derive_gauge_void_id, uint128_to_bytes,
}
use cloud_credit_system.Accounting.Signals.{
  HeartbeatSignal, QuotaAdjustmentSignal, GaugeMap, TbBatchInput, TbBatchResult,
  SubmitAllocationInput,
}
use cloud_credit_system.Accounting.Activities.{Activities, Balances}
use cloud_credit_system.Accounting.Workflow.State.{TenantAccountingState, inner, absorb}

-- `ledger_panic` is the panic of `LedgerID` on an unknown resource type.
pub data WorkflowError : Type 0 where
  submit_tb_batch_failed submit_allocation_failed ledger_panic : WorkflowError

-- A missing key of a Go map reads as the zero value.
abbrev pub or_zero : Option ℕ → ℕ
or_zero none = 0
or_zero (some n) = n

-- `m[clusterID][string(r)] = id`, where a missing inner map is made.
abbrev pub put_gauge_id : ℕ → ResourceType → ℕ → GaugeMap → GaugeMap
put_gauge_id c r id m = insert c (insert r id (inner c m)) m

-- `state.FlushSeqNo++`
abbrev pub next_flush : TenantAccountingState → TenantAccountingState
next_flush s = record s { flush_seq_no = (s.flush_seq_no + 1) % u64_mod }

module _ (blake3 : List ℕ → List ℕ) where
  -- The two maps of pre-generated IDs after one heartbeat and the resources of the inner loop.
  -- `LedgerID` does not panic on the resources of `AllResources`.
  unfoldable pub gauge_ids_resources :
      ℕ → ℕ → HeartbeatSignal → List ResourceType → GaugeMap × GaugeMap → GaugeMap × GaugeMap
  gauge_ids_resources tenant seq hb [] ids = ids
  gauge_ids_resources tenant seq hb (r ∷ rs) (pending, void) =
      gauge_ids_resources tenant seq hb rs (
        if is_gauge r
        then elim (ledger_id r) [
          | none ↦ (pending, void)
          | some ledger ↦ (
            put_gauge_id hb.cluster_id r
                (uint128_to_bytes
                  (derive_gauge_pending_id blake3 tenant seq hb.cluster_uuid ledger))
                pending,
            put_gauge_id hb.cluster_id r
                (uint128_to_bytes (derive_gauge_void_id blake3 tenant seq hb.cluster_uuid ledger))
                void,
          )
        ]
        else (pending, void))

  unfoldable pub gauge_ids :
      ℕ → ℕ → List HeartbeatSignal → GaugeMap × GaugeMap → GaugeMap × GaugeMap
  gauge_ids tenant seq [] ids = ids
  gauge_ids tenant seq (hb ∷ hbs) ids =
      gauge_ids tenant seq hbs (gauge_ids_resources tenant seq hb all_resources ids)

  -- The input of SubmitTBBatch, from the state after `FlushSeqNo++`.
  unfoldable pub batch_input : TenantAccountingState → TbBatchInput
  batch_input s =
      let (pending, void) = gauge_ids s.tenant_uuid s.flush_seq_no s.cur_batch ([], []) in
      record {
        tenant_id = s.tenant_id;
        tenant_uuid = s.tenant_uuid;
        tenant_quota_ids = s.account_map;
        heartbeats = s.cur_batch;
        global_operator_ids = s.global_operator_ids;
        global_sink_ids = s.global_sink_ids;
        pending_gauge_ids = s.pending_gauge_ids;
        new_gauge_pending_ids = pending;
        gauge_void_ids = void;
      }

  -- The input of SubmitAllocationTransfers, from the state after `FlushSeqNo++`.
  unfoldable pub allocation_input :
      TenantAccountingState → QuotaAdjustmentSignal → ℕ → SubmitAllocationInput
  allocation_input s sig ledger = record {
    tenant_uuid = s.tenant_uuid;
    tenant_quota_ids = (sig.resource_type, or_zero (lookup sig.resource_type s.account_map)) ∷ [];
    global_operator_ids =
        (sig.resource_type, or_zero (lookup sig.resource_type s.global_operator_ids)) ∷ [];
    credits = (sig.resource_type, sig.amount) ∷ [];
    period_start_ns = pos 0;
    transfer_ids =
        (
          sig.resource_type,
          uint128_to_bytes
              (derive_allocation_transfer_id blake3 s.tenant_uuid s.flush_seq_no ledger),
        )
        ∷ [];
  }

  module _ {W : Type 0} (act : Activities W) where
    -- The advisory part of `flushBatch`: balances, PG projection, soft limits. None is fatal.
    unfoldable pub project_balances : TenantAccountingState → W → W
    project_balances s w =
        let (balances, w1) = act.lookup_account_balances s.account_map w in
        elim balances [
          | none ↦ w1
          | some b ↦
              let (updated, w2) = act.update_quota_snapshots s.tenant_id b w1 in
              let (checked, w3) = act.check_soft_limits s.tenant_id b w2 in w3
        ]

    -- What `flushBatch` does with the outcome of SubmitTBBatch.
    unfoldable pub finish_flush :
        TenantAccountingState
        → Option TbBatchResult
        → W
        → Result WorkflowError (Unit {0}) × TenantAccountingState × W
    finish_flush s none w = (err submit_tb_batch_failed, s, w)
    finish_flush s (some result) w = (ok tt, absorb result s, project_balances (absorb result s) w)

    -- `flushBatch` of a batch that is not empty.
    unfoldable pub submit_flush :
        TenantAccountingState → W → Result WorkflowError (Unit {0}) × TenantAccountingState × W
    submit_flush s w =
        let (result, w') = act.submit_tb_batch (batch_input s) w in finish_flush s result w'

    -- `len(state.CurBatch) == 0` returns at once.
    unfoldable pub flush_unless_empty :
        List HeartbeatSignal
        → TenantAccountingState
        → W
        → Result WorkflowError (Unit {0}) × TenantAccountingState × W
    flush_unless_empty [] s w = (ok tt, s, w)
    flush_unless_empty (hb ∷ hbs) s w = submit_flush (next_flush s) w

    unfoldable pub flush_batch :
        TenantAccountingState → W → Result WorkflowError (Unit {0}) × TenantAccountingState × W
    flush_batch s w = flush_unless_empty s.cur_batch s w

    -- `flushAdjustment` after its allocation: clear the exceeded flag, refresh the projection, and
    -- re-arm the soft-limit alert. Without balances the call returns no balances and stops.
    unfoldable pub finish_adjustment :
        TenantAccountingState → QuotaAdjustmentSignal → W → Balances × TenantAccountingState × W
    finish_adjustment s sig w =
        let t = record s { exceeded_resources = erase sig.resource_type s.exceeded_resources } in
        let (balances, w1) = act.lookup_account_balances s.account_map w in
        elim balances [
          | none ↦ ([], t, w1)
          | some b ↦
              let (updated, w2) = act.update_quota_snapshots s.tenant_id b w1 in
              let (reset, w3) = act.reset_soft_limit_alert s.tenant_id sig.resource_type w2 in
              (b, t, w3)
        ]

    unfoldable pub flush_adjustment :
        TenantAccountingState
        → QuotaAdjustmentSignal
        → W
        → Result WorkflowError Balances × TenantAccountingState × W
    flush_adjustment s0 sig w =
        let s = next_flush s0 in
        elim (ledger_id sig.resource_type) [
          | none ↦ (err ledger_panic, s, w)
          | some ledger ↦
              let (committed, w') =
                act.submit_allocation_transfers (allocation_input s sig ledger) w in
              let (b, t, w3) = finish_adjustment s sig w' in
              if committed then (ok b, t, w3) else (err submit_allocation_failed, s, w')
        ]
