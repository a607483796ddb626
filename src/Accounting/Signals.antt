-- ===== src/Accounting/Signals.antt =====
-- internal/accounting/signals.go, and the data that passes between the workflow and its activities
-- (activities_tb.go, activities_pg.go). Cluster and tenant IDs are texts that the code only compares:
-- a number names each. A `[16]byte` is the number that its bytes spell.
use cloud_credit_system.Common.{ℕ, Bool}
use cloud_credit_system.Common.Int.{ℤ, pos}
use cloud_credit_system.Common.{List}
use cloud_credit_system.Common.Maps.{Map}
use cloud_credit_system.Domain.Resource.{
  ResourceType, cpu_hours, memory_gb_hours, active_nodes, other,
}

pub record HeartbeatSignal : Type 0 where
  pub cluster_id : ℕ
  pub cluster_uuid : ℕ
  pub sequence_number : ℕ
  pub cpu_milliseconds_delta : ℤ
  pub memory_mb_seconds_delta : ℤ
  pub active_nodes : ℤ
  pub heartbeat_timestamp_ns : ℤ

pub record QuotaAdjustmentSignal : Type 0 where
  pub resource_type : ResourceType
  pub amount : ℤ
  pub reason : ℕ
  pub code : ℕ

pub record RegisterClusterSignal : Type 0 where
  pub cluster_id : ℕ

-- A balance as it goes to PostgreSQL.
pub record QuotaSnapshotData : Type 0 where
  pub credits_total : ℤ
  pub debits_posted : ℤ
  pub debits_pending : ℤ

-- cluster ID → resource type → 16-byte transfer ID
abbrev pub GaugeMap : Type 0
GaugeMap = Map ℕ (Map ResourceType ℕ)

pub record TbBatchInput : Type 0 where
  pub tenant_id : ℕ
  pub tenant_uuid : ℕ
  pub tenant_quota_ids : Map ResourceType ℕ
  pub heartbeats : List HeartbeatSignal
  pub global_operator_ids : Map ResourceType ℕ
  pub global_sink_ids : Map ResourceType ℕ
  pub pending_gauge_ids : GaugeMap
  pub new_gauge_pending_ids : GaugeMap
  pub gauge_void_ids : GaugeMap

pub record ResourceBatchResult : Type 0 where
  pub accepted : Bool
  pub exceeds_credits : Bool
  pub exists : Bool

pub record TbBatchResult : Type 0 where
  pub per_resource : Map ResourceType ResourceBatchResult
  pub gauge_updates : GaugeMap

pub record SubmitAllocationInput : Type 0 where
  pub tenant_uuid : ℕ
  pub tenant_quota_ids : Map ResourceType ℕ
  pub global_operator_ids : Map ResourceType ℕ
  pub credits : Map ResourceType ℤ
  pub period_start_ns : ℤ
  pub transfer_ids : Map ResourceType ℕ

-- `heartbeatAmount`
abbrev pub heartbeat_amount : HeartbeatSignal → ResourceType → ℤ
heartbeat_amount hb cpu_hours = hb.cpu_milliseconds_delta
heartbeat_amount hb memory_gb_hours = hb.memory_mb_seconds_delta
heartbeat_amount hb active_nodes = hb.active_nodes
heartbeat_amount hb (other n) = pos 0
