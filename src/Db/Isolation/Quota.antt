-- ===== src/Db/Isolation/Quota.antt =====
-- The statements of quota.sql leave other tenants alone.
use cloud_credit_system.Common.{
  not, ℕ, ◌≡◌, refl, ap, inl, inr, Bool, false, ◌&&◌, Option, arith, Bool-cases, nat_beq, ltb,
}
use cloud_credit_system.Common.Int.{ℤ}
use cloud_credit_system.Domain.Resource.{ResourceType}
use cloud_credit_system.Domain.Codes.{AccountType}
use cloud_credit_system.Db.Table.{exists, order_by}
use cloud_credit_system.Db.Table.Laws.{select-update_where, select_skips}
use cloud_credit_system.Db.Schema.{
  QuotaConfig, TbAccountId, QuotaSnapshot, CreditAdjustment, Database, account_type_allowed,
  global_type_allowed,
}
use cloud_credit_system.Db.Tenants.{is_tenant}
use cloud_credit_system.Db.Quota.{
  is_snapshot, is_adjustment, is_config, is_account, insert_credit_adjustment,
  insert_global_tb_account, insert_quota_config, insert_tb_account_mapping, upsert_quota_snapshot,
}
use cloud_credit_system.Db.Isolation.{view, queries, Kept}

module _ (u : ℕ) (db : Database) where
  pub insert_quota_config-Kept :
      (tenant : ℕ) (r : ResourceType) (hard : ℤ) (soft : Option ℤ)
      → nat_beq tenant u ≡ false
      → Kept u db (insert_quota_config tenant r hard soft db)
  unfolding insert_quota_config queries
  insert_quota_config-Kept tenant r hard soft other =
      elim (Bool-cases (exists (is_tenant tenant) db.tenants)) [
        | inr missing ↦ rw missing refl
        | inl owned ↦ elim (Bool-cases (exists (is_config tenant r) db.quota_configs)) [
          | inl there ↦ rw (owned, there) refl
          | inr absent ↦
              rw (owned, absent)
                (ap (λ rows. record (view u db) { configs = rows })
                  (select_skips (λ (c : QuotaConfig). nat_beq c.tenant_id u) db.quota_configs _
                    other))
        ]
      ]

  pub insert_tb_account_mapping-Kept :
      (tenant : ℕ) (r : ResourceType) (t : AccountType) (account now : ℕ)
      → nat_beq tenant u ≡ false
      → Kept u db (insert_tb_account_mapping tenant r t account now db)
  unfolding insert_tb_account_mapping queries
  insert_tb_account_mapping-Kept tenant r t account now other =
      elim (Bool-cases (account_type_allowed t && exists (is_tenant tenant) db.tenants)) [
        | inr refused ↦ rw refused refl
        | inl allowed ↦ elim (Bool-cases (exists (is_account tenant r t) db.tb_account_ids)) [
          | inl there ↦ rw (allowed, there) refl
          | inr absent ↦
              rw (allowed, absent)
                (ap (λ rows. record (view u db) { accounts = rows })
                  (select_skips (λ (a : TbAccountId). nat_beq a.tenant_id u) db.tb_account_ids _
                    other))
        ]
      ]

  pub insert_global_tb_account-Kept :
      (r : ResourceType) (t : AccountType) (account now : ℕ)
      → Kept u db (insert_global_tb_account r t account now db)
  unfolding insert_global_tb_account queries
  insert_global_tb_account-Kept r t account now = elim (Bool-cases (global_type_allowed t)) [
    | inr refused ↦ rw refused refl
    | inl allowed ↦ rw allowed refl
  ]

  pub insert_credit_adjustment-Kept :
      (id tenant : ℕ) (r : ResourceType) (amount : ℤ) (reason : Option ℕ) (transfer now : ℕ)
      → nat_beq tenant u ≡ false
      → Kept u db (insert_credit_adjustment id tenant r amount reason transfer now db)
  unfolding insert_credit_adjustment queries
  insert_credit_adjustment-Kept id tenant r amount reason transfer now other =
      elim (Bool-cases (
        exists (is_tenant tenant) db.tenants
        && not (exists (is_adjustment id) db.credit_adjustments))) [
          | inr refused ↦ rw refused refl
          | inl allowed ↦ rw allowed (
              ap
                (λ rows. record (view u db) {
                  adjustments =
                      order_by
                        (λ (a : CreditAdjustment) (b : CreditAdjustment).
                          ltb b.created_at a.created_at)
                        rows;
                })
                (select_skips (λ (a : CreditAdjustment). nat_beq a.tenant_id u)
                  db.credit_adjustments _ other))
        ]

  pub upsert_quota_snapshot-Kept :
      (tenant : ℕ) (r : ResourceType) (total posted pending : ℤ) (now : ℕ)
      → nat_beq tenant u ≡ false
      → Kept u db (upsert_quota_snapshot tenant r total posted pending now db)
  unfolding upsert_quota_snapshot queries
  upsert_quota_snapshot-Kept tenant r total posted pending now other =
      let of_tenant : QuotaSnapshot → Bool = λ s. nat_beq s.tenant_id u in
      elim (Bool-cases (exists (is_tenant tenant) db.tenants)) [
        | inr missing ↦ rw missing refl
        | inl owned ↦ elim (Bool-cases (exists (is_snapshot tenant r) db.quota_snapshots)) [
          | inl there ↦
              rw (owned, there)
                (ap (λ rows. record (view u db) { snapshots = rows })
                  (select-update_where of_tenant (is_snapshot tenant r) _ db.quota_snapshots
                    (λ s same. ground (arith, same, other))
                    (λ s same. ground (arith, same, other))))
          | inr absent ↦
              rw (owned, absent)
                (ap (λ rows. record (view u db) { snapshots = rows })
                  (select_skips of_tenant db.quota_snapshots _ other))
        ]
      ]
