-- ===== src/Db/Integrity.antt =====
-- The constraints of sql/migrations/001_initial.sql: primary keys, foreign keys and CHECKs. No statement
-- breaks them; `base_plan_id` is left out.
pub mod Keys
pub mod Rows
pub mod QuotaRows
pub mod Kept
use cloud_credit_system.Common.{
  ℕ, ◌≡◌, refl, sym, ap, ◌∙◌, inl, inr, Bool, true, false, not, ◌&&◌, Option, none, some, List, [],
  ◌∷◌, ◌++◌, arith, All, All-append, All-map, if◌then◌else◌, Bool-cases, nat_beq, nat_beq_iff,
}
use cloud_credit_system.Domain.Resource.{ResourceType, resource_beq}
use cloud_credit_system.Domain.Codes.{AccountType, type_beq}
use cloud_credit_system.Db.Table.{
  exists, update_where, insert_unique, insert_or_keep, insert_or_update,
}
use cloud_credit_system.Db.Table.Laws.{
  IsKeyed, exists-append, exists-update_where, update_where-All, append-IsKeyed,
  insert_or_keep-IsKeyed, update_where-IsKeyed,
}
use cloud_credit_system.Db.Schema.{
  Tenant, WorkloadCluster, QuotaConfig, TbAccountId, TbGlobalAccountId, QuotaSnapshot,
  CreditAdjustment, Database, StatusText, deregistered, healthy, tier_allowed, provider_allowed,
  tenant_status_allowed, cluster_status_allowed, account_type_allowed, global_type_allowed,
  period_allowed,
}
use cloud_credit_system.Db.Tenants.{is_tenant, delete_tenant, insert_tenant, update_tenant_status}
use cloud_credit_system.Db.Clusters.{
  is_cluster, deregister_cluster, insert_cluster, update_cluster_heartbeat, update_cluster_status,
}
use cloud_credit_system.Db.Quota.{
  is_snapshot, is_adjustment, is_config, is_global, is_account, insert_credit_adjustment,
  insert_global_tb_account, insert_quota_config, insert_tb_account_mapping,
  mark_soft_limit_alert_sent, reset_soft_limit_alert, upsert_quota_snapshot,
}
use cloud_credit_system.Db.Statement.{
  Statement, delete_tenant_row, insert_tenant_row, set_tenant_status, deregister_cluster_row,
  insert_cluster_row, set_cluster_heartbeat, set_cluster_status, insert_adjustment,
  insert_global_account, insert_config, insert_mapping, mark_alert, reset_alert, upsert_snapshot,
  execute, or_unchanged, execute_all,
}

-- REFERENCES tenants(id)
abbrev pub IsTenantOf : List Tenant → ℕ → Type 0
IsTenantOf ts id = exists (is_tenant id) ts ≡ true

abbrev pub TenantIntact : Tenant → Type 0
TenantIntact t = (tier_allowed t.billing_tier ≡ true) × (tenant_status_allowed t.status ≡ true)

abbrev pub TenantsIntact : List Tenant → Type 0
TenantsIntact ts = IsKeyed (λ (a : Tenant). is_tenant a.id) ts × All TenantIntact ts

abbrev pub ClusterIntact : List Tenant → WorkloadCluster → Type 0
ClusterIntact ts c =
    (provider_allowed c.cloud_provider ≡ true)
    × (cluster_status_allowed c.status ≡ true)
    × IsTenantOf ts c.tenant_id

abbrev pub ClustersIntact : List Tenant → List WorkloadCluster → Type 0
ClustersIntact ts cs =
    IsKeyed (λ (a : WorkloadCluster). is_cluster a.id) cs × All (ClusterIntact ts) cs

abbrev pub ConfigIntact : List Tenant → QuotaConfig → Type 0
ConfigIntact ts c = (period_allowed c.billing_period ≡ true) × IsTenantOf ts c.tenant_id

abbrev pub ConfigsIntact : List Tenant → List QuotaConfig → Type 0
ConfigsIntact ts cs =
    IsKeyed (λ (a : QuotaConfig). is_config a.tenant_id a.resource_type) cs
    × All (ConfigIntact ts) cs

abbrev pub AccountsIntact : List Tenant → List TbAccountId → Type 0
AccountsIntact ts rows =
    IsKeyed (λ (a : TbAccountId). is_account a.tenant_id a.resource_type a.account_type) rows
    × All
        (λ (a : TbAccountId).
          (account_type_allowed a.account_type ≡ true) × IsTenantOf ts a.tenant_id)
        rows

abbrev pub GlobalsIntact : List TbGlobalAccountId → Type 0
GlobalsIntact rows =
    IsKeyed (λ (a : TbGlobalAccountId). is_global a.resource_type a.account_type) rows
    × All (λ (a : TbGlobalAccountId). global_type_allowed a.account_type ≡ true) rows

abbrev pub SnapshotsIntact : List Tenant → List QuotaSnapshot → Type 0
SnapshotsIntact ts ss =
    IsKeyed (λ (a : QuotaSnapshot). is_snapshot a.tenant_id a.resource_type) ss
    × All (λ (s : QuotaSnapshot). IsTenantOf ts s.tenant_id) ss

abbrev pub AdjustmentsIntact : List Tenant → List CreditAdjustment → Type 0
AdjustmentsIntact ts rows =
    IsKeyed (λ (a : CreditAdjustment). is_adjustment a.id) rows
    × All (λ (a : CreditAdjustment). IsTenantOf ts a.tenant_id) rows

-- The reference to base_plans is not among the constraints.
pub record IsIntact (db : Database) : Type 0 where
  pub tenants : TenantsIntact db.tenants
  pub clusters : ClustersIntact db.tenants db.workload_clusters
  pub configs : ConfigsIntact db.tenants db.quota_configs
  pub accounts : AccountsIntact db.tenants db.tb_account_ids
  pub globals : GlobalsIntact db.tb_global_account_ids
  pub snapshots : SnapshotsIntact db.tenants db.quota_snapshots
  pub adjustments : AdjustmentsIntact db.tenants db.credit_adjustments

module _ (db : Database) (h : IsIntact db) where
  -- The tables that refer to tenants, when no tenant is lost.
  pub with_tenants :
      (ts : List Tenant)
      → ((id : ℕ) → IsTenantOf db.tenants id → IsTenantOf ts id)
      → TenantsIntact ts
      → IsIntact (record db { tenants = ts })
  with_tenants ts grows intact = record {
    tenants = intact;
    clusters = (
      h.clusters.0,
      All-map db.workload_clusters (λ c (p, s, t). (p, s, grows c.tenant_id t)) h.clusters.1,
    );
    configs =
        (h.configs.0, All-map db.quota_configs (λ c (p, t). (p, grows c.tenant_id t)) h.configs.1);
    accounts = (
      h.accounts.0,
      All-map db.tb_account_ids (λ a (k, t). (k, grows a.tenant_id t)) h.accounts.1,
    );
    globals = h.globals;
    snapshots =
        (h.snapshots.0, All-map db.quota_snapshots (λ s t. grows s.tenant_id t) h.snapshots.1);
    adjustments = (
      h.adjustments.0,
      All-map db.credit_adjustments (λ a t. grows a.tenant_id t) h.adjustments.1,
    );
  }

  pub update_tenants :
      (id : ℕ) (change : Tenant → Tenant)
      → ((t : Tenant) → (change t).id ≡ t.id)
      → ((t : Tenant) → (change t).billing_tier ≡ t.billing_tier)
      → ((t : Tenant) → is_tenant id t ≡ true → tenant_status_allowed (change t).status ≡ true)
      → IsIntact (record db { tenants = update_where (is_tenant id) change db.tenants })
  update_tenants id change keeps_id keeps_tier allowed =
      with_tenants (update_where (is_tenant id) change db.tenants)
        (λ other there.
          exists-update_where (is_tenant other) (is_tenant id) change db.tenants
            (λ t. ap (λ i. nat_beq i other) (keeps_id t))
          ∙ there)
        (
          update_where-IsKeyed (λ (a : Tenant). is_tenant a.id) (is_tenant id) change db.tenants
              (λ a b. ap (λ i. nat_beq i a.id) (keeps_id b))
              (λ a b. ap (λ i. nat_beq b.id i) (keeps_id a)) h.tenants.0,
          update_where-All TenantIntact (is_tenant id) change db.tenants
              (λ t chosen (tier, _). (ap tier_allowed (keeps_tier t) ∙ tier, allowed t chosen))
              h.tenants.1,
        )

  pub with_clusters :
      (rows : List WorkloadCluster)
      → ClustersIntact db.tenants rows
      → IsIntact (record db { workload_clusters = rows })
  with_clusters rows intact = record {
    tenants = h.tenants;
    clusters = intact;
    configs = h.configs;
    accounts = h.accounts;
    globals = h.globals;
    snapshots = h.snapshots;
    adjustments = h.adjustments;
  }

  pub with_configs :
      (rows : List QuotaConfig)
      → ConfigsIntact db.tenants rows
      → IsIntact (record db { quota_configs = rows })
  with_configs rows intact = record {
    tenants = h.tenants;
    clusters = h.clusters;
    configs = intact;
    accounts = h.accounts;
    globals = h.globals;
    snapshots = h.snapshots;
    adjustments = h.adjustments;
  }

  pub with_accounts :
      (rows : List TbAccountId)
      → AccountsIntact db.tenants rows
      → IsIntact (record db { tb_account_ids = rows })
  with_accounts rows intact = record {
    tenants = h.tenants;
    clusters = h.clusters;
    configs = h.configs;
    accounts = intact;
    globals = h.globals;
    snapshots = h.snapshots;
    adjustments = h.adjustments;
  }

  pub with_globals :
      (rows : List TbGlobalAccountId)
      → GlobalsIntact rows
      → IsIntact (record db { tb_global_account_ids = rows })
  with_globals rows intact = record {
    tenants = h.tenants;
    clusters = h.clusters;
    configs = h.configs;
    accounts = h.accounts;
    globals = intact;
    snapshots = h.snapshots;
    adjustments = h.adjustments;
  }

  pub with_snapshots :
      (rows : List QuotaSnapshot)
      → SnapshotsIntact db.tenants rows
      → IsIntact (record db { quota_snapshots = rows })
  with_snapshots rows intact = record {
    tenants = h.tenants;
    clusters = h.clusters;
    configs = h.configs;
    accounts = h.accounts;
    globals = h.globals;
    snapshots = intact;
    adjustments = h.adjustments;
  }

  pub with_adjustments :
      (rows : List CreditAdjustment)
      → AdjustmentsIntact db.tenants rows
      → IsIntact (record db { credit_adjustments = rows })
  with_adjustments rows intact = record {
    tenants = h.tenants;
    clusters = h.clusters;
    configs = h.configs;
    accounts = h.accounts;
    globals = h.globals;
    snapshots = h.snapshots;
    adjustments = intact;
  }
