-- ===== src/Accounting/Workflow/State.antt =====
-- The durable state of TenantAccountingWorkflow, its start from an input, and what a batch result
-- does to it.
use cloud_credit_system.Common.{
  ℕ, Bool, true, Option, none, some, List, [], ◌∷◌, ◌*◌, ◌==◌, nat_key, ltb, if◌then◌else◌,
}
use cloud_credit_system.Common.Maps.{Map, lookup, insert, erase}
use cloud_credit_system.Domain.Resource.{ResourceType, resource_key}
use cloud_credit_system.Accounting.Signals.{
  HeartbeatSignal, GaugeMap, ResourceBatchResult, TbBatchResult,
}

-- Durations in nanoseconds.
abbrev pub base_flush_interval : ℕ
base_flush_interval = 2 * 1_000_000_000

abbrev pub max_flush_interval : ℕ
max_flush_interval = 60 * 1_000_000_000

abbrev pub batch_size_threshold : ℕ
batch_size_threshold = 150

pub record TenantAccountingState : Type 0 where
  pub tenant_id : ℕ
  pub tenant_uuid : ℕ
  pub processed_seqs : Map ℕ ℕ
  pub account_map : Map ResourceType ℕ
  pub global_operator_ids : Map ResourceType ℕ
  pub global_sink_ids : Map ResourceType ℕ
  pub cur_batch : List HeartbeatSignal
  pub last_ack : ℕ
  pub current_flush_interval : ℕ
  pub pending_gauge_ids : GaugeMap
  pub exceeded_resources : Map ResourceType Bool
  pub flush_seq_no : ℕ

-- A nil map is the empty map: the start replaces it by one, and both read the same.
pub record TenantAccountingInput : Type 0 where
  pub tenant_id : ℕ
  pub tenant_uuid : ℕ
  pub account_map : Map ResourceType ℕ
  pub global_operator_ids : Map ResourceType ℕ
  pub global_sink_ids : Map ResourceType ℕ
  pub carry_processed_seqs : Map ℕ ℕ
  pub carry_pending_gauge_ids : GaugeMap
  pub carry_exceeded_resources : Map ResourceType Bool
  pub carry_last_ack : ℕ
  pub carry_flush_seq_no : ℕ

-- The state at the start of a run.
unfoldable pub start : TenantAccountingInput → TenantAccountingState
start i = record {
  tenant_id = i.tenant_id;
  tenant_uuid = i.tenant_uuid;
  processed_seqs = i.carry_processed_seqs;
  account_map = i.account_map;
  global_operator_ids = i.global_operator_ids;
  global_sink_ids = i.global_sink_ids;
  cur_batch = [];
  last_ack = i.carry_last_ack;
  current_flush_interval = base_flush_interval;
  pending_gauge_ids = i.carry_pending_gauge_ids;
  exceeded_resources = i.carry_exceeded_resources;
  flush_seq_no = i.carry_flush_seq_no;
}

-- The input of the next run, at the end of the main loop.
unfoldable pub carry : TenantAccountingState → TenantAccountingInput
carry s = record {
  tenant_id = s.tenant_id;
  tenant_uuid = s.tenant_uuid;
  account_map = s.account_map;
  global_operator_ids = s.global_operator_ids;
  global_sink_ids = s.global_sink_ids;
  carry_processed_seqs = s.processed_seqs;
  carry_pending_gauge_ids = s.pending_gauge_ids;
  carry_exceeded_resources = s.exceeded_resources;
  carry_last_ack = s.last_ack;
  carry_flush_seq_no = s.flush_seq_no;
}

-- The loop over `result.PerResource`.
unfoldable pub update_exceeded :
    Map ResourceType ResourceBatchResult → Map ResourceType Bool → Map ResourceType Bool
update_exceeded [] m = m
update_exceeded ((r, rr) ∷ rest) m =
    update_exceeded rest
      (if rr.exceeds_credits then insert r true m else if rr.accepted then erase r m else m)

-- `state.PendingGaugeIDs[clusterID]`, made if it is nil.
abbrev pub inner : ℕ → GaugeMap → Map ResourceType ℕ
inner c m = elim (lookup c m) [ none ↦ [] | some rs ↦ rs ]

-- The inner loop over `result.GaugeUpdates`: a zero ID releases the gauge.
unfoldable pub update_gauges : Map ResourceType ℕ → Map ResourceType ℕ → Map ResourceType ℕ
update_gauges [] m = m
update_gauges ((r, id) ∷ rest) m = update_gauges rest (if id == 0 then erase r m else insert r id m)

unfoldable pub update_pending : GaugeMap → GaugeMap → GaugeMap
update_pending [] m = m
update_pending ((c, resources) ∷ rest) m =
    update_pending rest (insert c (update_gauges resources (inner c m)) m)

-- `prev, seen := state.ProcessedSeqs[hb.ClusterID]; !seen || hb.SequenceNumber > prev`
abbrev pub advances : Option ℕ → ℕ → Bool
advances none seq = true
advances (some prev) seq = ltb prev seq

-- The body of the loop over the batch that sets `ProcessedSeqs` and `LastAck`.
abbrev pub mark_one : HeartbeatSignal → TenantAccountingState → TenantAccountingState
mark_one hb s = record s {
  processed_seqs =
      if advances (lookup hb.cluster_id s.processed_seqs) hb.sequence_number
      then insert hb.cluster_id hb.sequence_number s.processed_seqs
      else s.processed_seqs;
  last_ack = if ltb s.last_ack hb.sequence_number then hb.sequence_number else s.last_ack;
}

-- The loop.
unfoldable pub mark_processed : List HeartbeatSignal → TenantAccountingState → TenantAccountingState
mark_processed [] s = s
mark_processed (hb ∷ hbs) s = mark_processed hbs (mark_one hb s)

-- All that `flushBatch` does to the state once SubmitTBBatch has succeeded.
unfoldable pub absorb : TbBatchResult → TenantAccountingState → TenantAccountingState
absorb result s =
    let t = mark_processed s.cur_batch (record s {
      exceeded_resources = update_exceeded result.per_resource s.exceeded_resources;
      pending_gauge_ids = update_pending result.gauge_updates s.pending_gauge_ids;
    }) in
    record t { cur_batch = [] }
