-- ===== src/Db/Isolation.antt =====
-- Tenants are kept apart: a statement that is not about a tenant changes no answer about it.
pub mod Quota
pub mod Apart
use cloud_credit_system.Common.{
  ℕ, ◌≡◌, refl, sym, ap, ◌∙◌, inl, inr, Bool, true, false, not, ◌&&◌, Option, none, some, List, [],
  ◌∷◌, ◌++◌, arith, if◌then◌else◌, Bool-cases, nat_beq, nat_beq_iff, ltb,
}
use cloud_credit_system.Common.Int.{ℤ, pos}
use cloud_credit_system.Domain.Resource.{ResourceType}
use cloud_credit_system.Domain.Codes.{AccountType}
use cloud_credit_system.Db.Table.{select, exists, update_where, order_by}
use cloud_credit_system.Db.Table.Laws.{
  select-update_where, select-untouched, select_one-update_where, select_one_skips, select_skips,
}
use cloud_credit_system.Db.Schema.{
  Tenant, WorkloadCluster, QuotaConfig, TbAccountId, QuotaSnapshot, CreditAdjustment, Database,
  StatusText, active, healthy, deregistered, tier_allowed, provider_allowed, tenant_status_allowed,
  cluster_status_allowed, account_type_allowed, global_type_allowed,
}
use cloud_credit_system.Db.Tenants.{
  is_tenant, is_null, get_tenant, delete_tenant, insert_tenant, update_tenant_status,
}
use cloud_credit_system.Db.Clusters.{
  is_cluster, list_clusters_by_tenant, deregister_cluster, insert_cluster, update_cluster_heartbeat,
  update_cluster_status,
}
use cloud_credit_system.Db.Quota.{
  is_snapshot, is_config, is_account, is_global, set_alert, get_quota_snapshots, get_tb_account_ids,
  list_credit_adjustments_by_tenant, list_quota_configs_by_tenant, insert_credit_adjustment,
  insert_global_tb_account, insert_quota_config, insert_tb_account_mapping,
  mark_soft_limit_alert_sent, reset_soft_limit_alert, upsert_quota_snapshot,
}
use cloud_credit_system.Db.Statement.{
  Statement, delete_tenant_row, insert_tenant_row, set_tenant_status, deregister_cluster_row,
  insert_cluster_row, set_cluster_heartbeat, set_cluster_status, insert_adjustment,
  insert_global_account, insert_config, insert_mapping, mark_alert, reset_alert, upsert_snapshot,
  execute, or_unchanged, execute_all,
}

-- What the queries answer about a tenant.
pub record TenantView : Type 0 where
  pub tenant : Option Tenant
  pub clusters : List WorkloadCluster
  pub configs : List QuotaConfig
  pub accounts : List TbAccountId
  pub snapshots : List QuotaSnapshot
  pub adjustments : List CreditAdjustment

unfoldable pub view : ℕ → Database → TenantView
view u db = record {
  tenant = get_tenant u db;
  clusters = list_clusters_by_tenant u db;
  configs = list_quota_configs_by_tenant u db;
  accounts = get_tb_account_ids u db;
  snapshots = get_quota_snapshots u db;
  adjustments = list_credit_adjustments_by_tenant u db;
}

abbrev pub is_owned : ℕ → WorkloadCluster → Bool
is_owned u c = nat_beq c.tenant_id u

-- The cluster is one of the tenant's.
abbrev pub has_cluster : ℕ → ℕ → Database → Bool
has_cluster u id db = exists (λ c. is_cluster id c && is_owned u c) db.workload_clusters

-- Whether a statement is about a tenant: it names it, or one of its clusters.
unfoldable pub concerns : ℕ → Database → Statement → Bool
concerns u db (delete_tenant_row id now) = nat_beq id u
concerns u db (insert_tenant_row id name tier now) = nat_beq id u
concerns u db (set_tenant_status id status) = nat_beq id u
concerns u db (deregister_cluster_row id now) = has_cluster u id db
concerns u db (insert_cluster_row id tenant provider region now) = nat_beq tenant u
concerns u db (set_cluster_heartbeat id now) = has_cluster u id db
concerns u db (set_cluster_status id status) = has_cluster u id db
concerns u db (insert_adjustment id tenant r amount reason transfer now) = nat_beq tenant u
concerns u db (insert_global_account r t account now) = false
concerns u db (insert_config tenant r hard soft) = nat_beq tenant u
concerns u db (insert_mapping tenant r t account now) = nat_beq tenant u
concerns u db (mark_alert tenant r) = nat_beq tenant u
concerns u db (reset_alert tenant r) = nat_beq tenant u
concerns u db (upsert_snapshot tenant r total posted pending now) = nat_beq tenant u

-- A row of one ID or tenant is not one of another.
pub apart : (a t u : ℕ) → nat_beq t u ≡ false → nat_beq a t ≡ true → nat_beq a u ≡ false
apart a t u other same = ground arith

-- The queries of a view, unfolded.
pub queries : Unit {0}
unfolding view get_tenant list_clusters_by_tenant list_quota_configs_by_tenant get_tb_account_ids
    get_quota_snapshots list_credit_adjustments_by_tenant
queries = tt

module _ (u : ℕ) (db : Database) where
  -- A statement leaves the view as it was.
  abbrev pub Kept : Option Database → Type 0
  Kept o = view u (or_unchanged db o) ≡ view u db

  -- An update of the row of another tenant.
  pub tenants_kept :
      (id : ℕ) (change : Tenant → Tenant)
      → nat_beq id u ≡ false
      → ((t : Tenant) → (change t).id ≡ t.id)
      → view u (record db { tenants = update_where (is_tenant id) change db.tenants }) ≡ view u db
  unfolding queries
  tenants_kept id change other keeps =
      ap (λ row. record (view u db) { tenant = row })
        (select_one-update_where (is_tenant u) (is_tenant id) change db.tenants
          (λ t same. apart t.id id u other same)
          (λ t same. ap (λ i. nat_beq i u) (keeps t) ∙ apart t.id id u other same))

  -- An update of clusters, none of them of this tenant.
  pub clusters_kept :
      (id : ℕ) (change : WorkloadCluster → WorkloadCluster)
      → has_cluster u id db ≡ false
      → ((c : WorkloadCluster) → (change c).tenant_id ≡ c.tenant_id)
      → view u (record db {
        workload_clusters = update_where (is_cluster id) change db.workload_clusters;
      })
        ≡ view u db
  unfolding queries
  clusters_kept id change other keeps =
      ap
        (λ rows. record (view u db) {
          clusters =
              order_by
                (λ (a : WorkloadCluster) (b : WorkloadCluster). ltb a.created_at b.created_at) rows;
        })
        (select-untouched (is_owned u) _ (is_cluster id) change db.workload_clusters other
          (λ c no. rw no refl) (λ c no. rw (keeps c, no) refl))

  pub configs_kept :
      (sent : Bool) (tenant : ℕ) (r : ResourceType)
      → nat_beq tenant u ≡ false
      → view u (set_alert sent tenant r db) ≡ view u db
  unfolding queries
  configs_kept sent tenant r other =
      ap (λ rows. record (view u db) { configs = rows })
        (select-update_where (λ (c : QuotaConfig). nat_beq c.tenant_id u) (is_config tenant r) _
          db.quota_configs (λ c same. ground (arith, same, other))
          (λ c same. ground (arith, same, other)))

  pub insert_tenant-Kept :
      (id name tier now : ℕ) → nat_beq id u ≡ false → Kept (insert_tenant id name tier now db)
  unfolding insert_tenant queries
  insert_tenant-Kept id name tier now other = elim (Bool-cases (tier_allowed tier)) [
    | inr refused ↦ rw refused refl
    | inl allowed ↦ elim (Bool-cases (exists (is_tenant id) db.tenants)) [
      | inl there ↦ rw (allowed, there) refl
      | inr absent ↦
          rw (allowed, absent)
            (ap (λ row. record (view u db) { tenant = row })
              (select_one_skips (is_tenant u) db.tenants _ other))
    ]
  ]

  pub insert_cluster-Kept :
      (id tenant provider region now : ℕ)
      → nat_beq tenant u ≡ false
      → Kept (insert_cluster id tenant provider region now db)
  unfolding insert_cluster queries
  insert_cluster-Kept id tenant provider region now other =
      elim (Bool-cases (provider_allowed provider && exists (is_tenant tenant) db.tenants)) [
        | inr refused ↦ rw refused refl
        | inl allowed ↦ elim (Bool-cases (exists (is_cluster id) db.workload_clusters)) [
          | inl there ↦ rw (allowed, there) refl
          | inr absent ↦
              rw (allowed, absent)
                (ap
                  (λ rows. record (view u db) {
                    clusters =
                        order_by
                          (λ (a : WorkloadCluster) (b : WorkloadCluster).
                            ltb a.created_at b.created_at)
                          rows;
                  })
                  (select_skips
                    (λ (c : WorkloadCluster). nat_beq c.tenant_id u && is_null c.deregistered_at)
                    db.workload_clusters _ (rw other refl)))
        ]
      ]
