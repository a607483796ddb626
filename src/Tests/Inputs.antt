-- ===== src/Tests/Inputs.antt =====
-- Concrete parameters and data that the tests share.
use cloud_credit_system.Common.{ℕ, ◌+◌, true, none, some, List, [], ◌∷◌}
use cloud_credit_system.Common.Int.{pos}
use cloud_credit_system.Common.Maps.{Map}
use cloud_credit_system.Domain.Resource.{ResourceType, cpu_hours, memory_gb_hours, active_nodes}
use cloud_credit_system.Accounting.Signals.{HeartbeatSignal, QuotaAdjustmentSignal, TbBatchInput}
use cloud_credit_system.Accounting.Activities.{Activities}
use cloud_credit_system.Accounting.Workflow.State.{
  TenantAccountingInput, TenantAccountingState, base_flush_interval,
}

-- A stand-in for the hash: the bytes themselves.
abbrev pub plain : List ℕ → List ℕ
plain bytes = bytes

-- Activities that all succeed, or whose submission fails, on a world that counts the calls.
abbrev pub working : Activities ℕ
working = record {
  submit_tb_batch = λ i w. (some (record { per_resource = []; gauge_updates = [] }), w + 1);
  submit_allocation_transfers = λ i w. (true, w + 1);
  lookup_account_balances = λ m w. (some [], w + 1);
  update_quota_snapshots = λ t b w. (true, w + 1);
  check_soft_limits = λ t b w. (true, w + 1);
  reset_soft_limit_alert = λ t r w. (true, w + 1);
}

abbrev pub failing : Activities ℕ
failing = record working { submit_tb_batch = λ i w. (none, w + 1) }

abbrev pub heartbeat_of : ℕ → ℕ → HeartbeatSignal
heartbeat_of cluster seq = record {
  cluster_id = cluster;
  cluster_uuid = cluster;
  sequence_number = seq;
  cpu_milliseconds_delta = pos 100;
  memory_mb_seconds_delta = pos 50;
  active_nodes = pos 3;
  heartbeat_timestamp_ns = pos 1000;
}

abbrev pub accounts : Map ResourceType ℕ
accounts = (cpu_hours, 11) ∷ (memory_gb_hours, 12) ∷ (active_nodes, 13) ∷ []

abbrev pub first_run : TenantAccountingInput
first_run = record {
  tenant_id = 1;
  tenant_uuid = 77;
  account_map = accounts;
  global_operator_ids = (cpu_hours, 21) ∷ (memory_gb_hours, 22) ∷ (active_nodes, 23) ∷ [];
  global_sink_ids = (cpu_hours, 31) ∷ (memory_gb_hours, 32) ∷ (active_nodes, 33) ∷ [];
  carry_processed_seqs = [];
  carry_pending_gauge_ids = [];
  carry_exceeded_resources = [];
  carry_last_ack = 0;
  carry_flush_seq_no = 0;
}

-- Two heartbeats of cluster 5 and one of cluster 6 wait in the batch.
abbrev pub waiting : TenantAccountingState
waiting = record {
  tenant_id = 1;
  tenant_uuid = 77;
  processed_seqs = (5, 3) ∷ [];
  account_map = accounts;
  global_operator_ids = first_run.global_operator_ids;
  global_sink_ids = first_run.global_sink_ids;
  cur_batch = heartbeat_of 5 4 ∷ heartbeat_of 5 5 ∷ heartbeat_of 6 9 ∷ [];
  last_ack = 3;
  current_flush_interval = base_flush_interval;
  pending_gauge_ids = [];
  exceeded_resources = (cpu_hours, true) ∷ [];
  flush_seq_no = 2;
}

abbrev pub idle : TenantAccountingState
idle = record waiting { cur_batch = [] }

abbrev pub surge_pack : QuotaAdjustmentSignal
surge_pack = record { resource_type = cpu_hours; amount = pos 500_000; reason = 0; code = 101 }

-- The input of SubmitTBBatch for these heartbeats.
abbrev pub three : TbBatchInput
three = record {
  tenant_id = 1;
  tenant_uuid = 77;
  tenant_quota_ids = accounts;
  heartbeats = waiting.cur_batch;
  global_operator_ids = first_run.global_operator_ids;
  global_sink_ids = first_run.global_sink_ids;
  pending_gauge_ids = [];
  new_gauge_pending_ids = [];
  gauge_void_ids = [];
}
