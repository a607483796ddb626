-- ===== src/Accounting/TbActivities/Balances.antt =====
-- CreateTenantTBAccounts and LookupAccountBalances.
pub mod Live
use cloud_credit_system.Common.{ℕ, List, [], ◌∷◌, Result, ok, err, map}
use cloud_credit_system.Common.Int.{to_i64}
use cloud_credit_system.Common.Maps.{Map}
use cloud_credit_system.Domain.Resource.{ResourceType}
use cloud_credit_system.Ledger.Ids.{uint128_to_bytes}
use cloud_credit_system.Ledger.TigerBeetle.{TigerBeetle}
use cloud_credit_system.Ledger.Accounts.{
  AccountError, BalanceSnapshot, create_tenant_quota_accounts, lookup_balances,
}
use cloud_credit_system.Accounting.Signals.{QuotaSnapshotData}

unfoldable pub snapshot_data : BalanceSnapshot → QuotaSnapshotData
snapshot_data b = record {
  credits_total = to_i64 b.credits_posted;
  debits_posted = to_i64 b.debits_posted;
  debits_pending = to_i64 b.debits_pending;
}

-- The loops that copy a map, with each value converted.
abbrev pub map_values {ℓ κ} :
    {V : Type ℓ} {W : Type κ} → (V → W) → Map ResourceType V → Map ResourceType W
map_values f [] = []
map_values f ((r, v) ∷ rest) = (r, f v) ∷ map_values f rest

module _ (tb : TigerBeetle) where
  open tb use {Store}

  -- `existing` is nil in the call of CreateTenantQuotaAccounts.
  unfoldable pub create_tenant_tb_accounts :
      (ℕ → ℕ) → ℕ → Store → Result AccountError (Map ResourceType ℕ) × Store
  create_tenant_tb_accounts random tenant_uuid s =
      let (ids, s') = create_tenant_quota_accounts tb random tenant_uuid [] s in
      (elim ids [ ok m ↦ ok (map_values uint128_to_bytes m) | err e ↦ err e ], s')

  unfoldable pub lookup_account_balances :
      Map ResourceType ℕ → Store → Result AccountError (Map ResourceType QuotaSnapshotData)
  lookup_account_balances ids s = elim (lookup_balances tb ids s) [
    | ok b ↦ ok (map_values snapshot_data b)
    | err e ↦ err e
  ]
