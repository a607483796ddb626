-- ===== src/Db/Integrity/QuotaRows.antt =====
-- The statements of quota.sql keep the constraints.
use cloud_credit_system.Common.{
  ℕ, ◌≡◌, refl, inl, inr, Bool, true, false, not, arith, ◌&&◌, Option, none, Bool-cases,
}
use cloud_credit_system.Common.Int.{ℤ, pos}
use cloud_credit_system.Domain.Resource.{ResourceType}
use cloud_credit_system.Domain.Codes.{AccountType}
use cloud_credit_system.Db.Table.{exists, update_where, insert_or_keep}
use cloud_credit_system.Db.Table.Laws.{
  update_where-All, append-IsKeyed, insert_or_keep-IsKeyed, update_where-IsKeyed,
}
use cloud_credit_system.Db.Schema.{
  monthly, QuotaConfig, TbAccountId, TbGlobalAccountId, QuotaSnapshot, CreditAdjustment, Database,
  account_type_allowed, global_type_allowed,
}
use cloud_credit_system.Db.Tenants.{is_tenant}
use cloud_credit_system.Db.Quota.{
  set_alert, is_adjustment, is_config, insert_credit_adjustment, insert_global_tb_account,
  insert_quota_config, insert_tb_account_mapping, upsert_quota_snapshot,
}
use cloud_credit_system.Db.Integrity.{
  IsTenantOf, ConfigIntact, IsIntact, with_configs, with_accounts, with_globals, with_snapshots,
  with_adjustments,
}
use cloud_credit_system.Db.Integrity.Keys.{
  adjustment_key, adjustment_mirror, config_key, account_key, global_key, snapshot_key,
  config_mirror, account_mirror, global_mirror, snapshot_mirror, and_split, append_row-All,
  insert_or_keep-All, IsIntactIf,
}

not-true : (b : Bool) → not b ≡ true → b ≡ false
not-true b h = ground arith

module _ (db : Database) (h : IsIntact db) where
  pub set_alert-IsIntact :
      (sent : Bool) (tenant : ℕ) (r : ResourceType) → IsIntact (set_alert sent tenant r db)
  set_alert-IsIntact sent tenant r =
      let change : QuotaConfig → QuotaConfig = λ c. record c { soft_limit_alert_sent = sent } in
      with_configs db h (update_where (is_config tenant r) change db.quota_configs) (
        update_where-IsKeyed config_key (is_config tenant r) change db.quota_configs (λ a b. refl)
            (λ a b. refl) h.configs.0,
        update_where-All (ConfigIntact db.tenants) (is_config tenant r) change db.quota_configs
            (λ c chosen t. t) h.configs.1,
      )

  pub insert_quota_config-IsIntact :
      (tenant : ℕ) (r : ResourceType) (hard : ℤ) (soft : Option ℤ)
      → IsIntactIf (insert_quota_config tenant r hard soft db)
  unfolding insert_quota_config
  insert_quota_config-IsIntact tenant r hard soft =
      elim (Bool-cases (exists (is_tenant tenant) db.tenants)) [
        | inr missing ↦ rw missing tt
        | inl owned ↦ rw owned (
            let row : QuotaConfig = record {
              tenant_id = tenant;
              resource_type = r;
              base_plan_id = none;
              hard_limit = hard;
              soft_limit = soft;
              burst_credits = pos 0;
              billing_period = monthly;
              soft_limit_alert_sent = false;
            } in
            with_configs db h (insert_or_keep (config_key row) row db.quota_configs) (
              insert_or_keep-IsKeyed config_key config_mirror db.quota_configs row h.configs.0,
              insert_or_keep-All (ConfigIntact db.tenants) (config_key row) db.quota_configs row
                  h.configs.1 (refl, owned),
            ))
      ]

  pub insert_tb_account_mapping-IsIntact :
      (tenant : ℕ) (r : ResourceType) (t : AccountType) (account now : ℕ)
      → IsIntactIf (insert_tb_account_mapping tenant r t account now db)
  unfolding insert_tb_account_mapping
  insert_tb_account_mapping-IsIntact tenant r t account now =
      elim (Bool-cases (account_type_allowed t && exists (is_tenant tenant) db.tenants)) [
        | inr refused ↦ rw refused tt
        | inl allowed ↦ rw allowed (
            let row : TbAccountId = record {
              tenant_id = tenant;
              resource_type = r;
              account_type = t;
              tb_account_id = account;
              created_at = now;
            } in
            with_accounts db h (insert_or_keep (account_key row) row db.tb_account_ids) (
              insert_or_keep-IsKeyed account_key account_mirror db.tb_account_ids row h.accounts.0,
              insert_or_keep-All
                  (λ (a : TbAccountId).
                    (account_type_allowed a.account_type ≡ true)
                    × IsTenantOf db.tenants a.tenant_id)
                  (account_key row) db.tb_account_ids row h.accounts.1
                  (and_split (account_type_allowed t) _ allowed),
            ))
      ]

  pub insert_global_tb_account-IsIntact :
      (r : ResourceType) (t : AccountType) (account now : ℕ)
      → IsIntactIf (insert_global_tb_account r t account now db)
  unfolding insert_global_tb_account
  insert_global_tb_account-IsIntact r t account now = elim (Bool-cases (global_type_allowed t)) [
    | inr refused ↦ rw refused tt
    | inl allowed ↦ rw allowed (
        let row : TbGlobalAccountId = record {
          resource_type = r;
          account_type = t;
          tb_account_id = account;
          created_at = now;
        } in
        with_globals db h (insert_or_keep (global_key row) row db.tb_global_account_ids) (
          insert_or_keep-IsKeyed global_key global_mirror db.tb_global_account_ids row h.globals.0,
          insert_or_keep-All (λ (a : TbGlobalAccountId). global_type_allowed a.account_type ≡ true)
              (global_key row) db.tb_global_account_ids row h.globals.1 allowed,
        ))
  ]

  pub insert_credit_adjustment-IsIntact :
      (id tenant : ℕ) (r : ResourceType) (amount : ℤ) (reason : Option ℕ) (transfer now : ℕ)
      → IsIntactIf (insert_credit_adjustment id tenant r amount reason transfer now db)
  unfolding insert_credit_adjustment
  insert_credit_adjustment-IsIntact id tenant r amount reason transfer now =
      let owned_by = exists (is_tenant tenant) db.tenants in
      let taken = exists (is_adjustment id) db.credit_adjustments in
      let row : CreditAdjustment = record {
        id = id;
        tenant_id = tenant;
        resource_type = r;
        amount = amount;
        reason = reason;
        tb_transfer_id = transfer;
        created_at = now;
      } in
      elim (Bool-cases (owned_by && not taken)) [
        | inr refused ↦ rw refused tt
        | inl allowed ↦ rw allowed (
            let (owned, free) = and_split owned_by (not taken) allowed in
            with_adjustments db h _ (
              append-IsKeyed adjustment_key adjustment_mirror db.credit_adjustments row
                  (not-true taken free) h.adjustments.0,
              append_row-All (λ (a : CreditAdjustment). IsTenantOf db.tenants a.tenant_id)
                  db.credit_adjustments row h.adjustments.1 owned,
            ))
      ]

  pub upsert_quota_snapshot-IsIntact :
      (tenant : ℕ) (r : ResourceType) (total posted pending : ℤ) (now : ℕ)
      → IsIntactIf (upsert_quota_snapshot tenant r total posted pending now db)
  unfolding upsert_quota_snapshot
  upsert_quota_snapshot-IsIntact tenant r total posted pending now =
      let row : QuotaSnapshot = record {
        tenant_id = tenant;
        resource_type = r;
        credits_total = total;
        debits_posted = posted;
        debits_pending = pending;
        snapshot_at = now;
      } in
      let change : QuotaSnapshot → QuotaSnapshot = λ s. record s {
        credits_total = total;
        debits_posted = posted;
        debits_pending = pending;
        snapshot_at = now;
      } in
      let owned_rows : QuotaSnapshot → Type 0 = λ s. IsTenantOf db.tenants s.tenant_id in
      elim (Bool-cases (exists (is_tenant tenant) db.tenants)) [
        | inr missing ↦ rw missing tt
        | inl owned ↦ elim (Bool-cases (exists (snapshot_key row) db.quota_snapshots)) [
          | inl there ↦
              rw (owned, there)
                (with_snapshots db h _ (
                  update_where-IsKeyed snapshot_key (snapshot_key row) change db.quota_snapshots
                      (λ a b. refl) (λ a b. refl) h.snapshots.0,
                  update_where-All owned_rows (snapshot_key row) change db.quota_snapshots
                      (λ s chosen t. t) h.snapshots.1,
                ))
          | inr absent ↦
              rw (owned, absent)
                (with_snapshots db h _ (
                  append-IsKeyed snapshot_key snapshot_mirror db.quota_snapshots row absent
                      h.snapshots.0,
                  append_row-All owned_rows db.quota_snapshots row h.snapshots.1 owned,
                ))
        ]
      ]
