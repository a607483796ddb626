-- ===== src/Accounting/Activities.antt =====
-- What the workflow uses of its activities: each call as Temporal executes it, retries included, on
-- the world `W` of TigerBeetle and PostgreSQL. `none` or `false` is the error that is left in the end.
use cloud_credit_system.Common.{ℕ, Bool, Option}
use cloud_credit_system.Common.Maps.{Map}
use cloud_credit_system.Domain.Resource.{ResourceType}
use cloud_credit_system.Accounting.Signals.{
  TbBatchInput, TbBatchResult, SubmitAllocationInput, QuotaSnapshotData,
}

abbrev pub Balances : Type 0
Balances = Map ResourceType QuotaSnapshotData

pub record Activities (W : Type 0) : Type 0 where
  pub submit_tb_batch : TbBatchInput → W → Option TbBatchResult × W
  pub submit_allocation_transfers : SubmitAllocationInput → W → Bool × W
  pub lookup_account_balances : Map ResourceType ℕ → W → Option Balances × W
  pub update_quota_snapshots : ℕ → Balances → W → Bool × W
  pub check_soft_limits : ℕ → Balances → W → Bool × W
  pub reset_soft_limit_alert : ℕ → ResourceType → W → Bool × W
