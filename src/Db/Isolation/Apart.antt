-- ===== src/Db/Isolation/Apart.antt =====
-- Every statement leaves other tenants alone.
use cloud_credit_system.Common.{
  ℕ, ◌≡◌, refl, inl, inr, true, false, not, ◌&&◌, some, Bool-cases, nat_beq,
}
use cloud_credit_system.Db.Table.{exists}
use cloud_credit_system.Db.Schema.{
  Database, StatusText, healthy, deregistered, tenant_status_allowed, cluster_status_allowed,
}
use cloud_credit_system.Db.Tenants.{is_tenant, delete_tenant, update_tenant_status}
use cloud_credit_system.Db.Clusters.{
  is_cluster, deregister_cluster, update_cluster_heartbeat, update_cluster_status,
}
use cloud_credit_system.Db.Quota.{mark_soft_limit_alert_sent, reset_soft_limit_alert}
use cloud_credit_system.Db.Statement.{
  Statement, delete_tenant_row, insert_tenant_row, set_tenant_status, deregister_cluster_row,
  insert_cluster_row, set_cluster_heartbeat, set_cluster_status, insert_adjustment,
  insert_global_account, insert_config, insert_mapping, mark_alert, reset_alert, upsert_snapshot,
  execute, or_unchanged,
}
use cloud_credit_system.Db.Isolation.{
  view, concerns, has_cluster, Kept, tenants_kept, clusters_kept, configs_kept, insert_tenant-Kept,
  insert_cluster-Kept,
}
use cloud_credit_system.Db.Isolation.Quota.{
  insert_quota_config-Kept, insert_tb_account_mapping-Kept, insert_global_tb_account-Kept,
  insert_credit_adjustment-Kept, upsert_quota_snapshot-Kept,
}

module _ (u : ℕ) (db : Database) where
  update_tenant_status-Kept :
      (id : ℕ) (status : StatusText)
      → nat_beq id u ≡ false
      → Kept u db (update_tenant_status id status db)
  unfolding update_tenant_status
  update_tenant_status-Kept id status other =
      elim (Bool-cases (exists (is_tenant id) db.tenants && not (tenant_status_allowed status))) [
        | inl refused ↦ rw refused refl
        | inr fine ↦
            rw fine (tenants_kept u db id (λ t. record t { status = status }) other (λ t. refl))
      ]

  update_cluster_status-Kept :
      (id : ℕ) (status : StatusText)
      → has_cluster u id db ≡ false
      → Kept u db (update_cluster_status id status db)
  unfolding update_cluster_status
  update_cluster_status-Kept id status other =
      elim (Bool-cases
        (exists (is_cluster id) db.workload_clusters && not (cluster_status_allowed status))) [
          | inl refused ↦ rw refused refl
          | inr fine ↦
              rw fine (clusters_kept u db id (λ c. record c { status = status }) other (λ c. refl))
        ]

  -- A statement that is not about a tenant, nor about one of its clusters, leaves what every query answers
  -- about the tenant, errors included.
  pub tenants_isolated :
      (x : Statement)
      → concerns u db x ≡ false
      → view u (or_unchanged db (execute x db)) ≡ view u db
  unfolding concerns execute delete_tenant deregister_cluster update_cluster_heartbeat
      mark_soft_limit_alert_sent reset_soft_limit_alert
  tenants_isolated (delete_tenant_row id now) other =
      tenants_kept u db id (λ t. record t { status = deregistered; deleted_at = some now }) other
        (λ t. refl)
  tenants_isolated (insert_tenant_row id name tier now) other =
      insert_tenant-Kept u db id name tier now other
  tenants_isolated (set_tenant_status id status) other = update_tenant_status-Kept id status other
  tenants_isolated (deregister_cluster_row id now) other =
      clusters_kept u db id (λ c. record c { status = deregistered; deregistered_at = some now })
        other (λ c. refl)
  tenants_isolated (insert_cluster_row id tenant provider region now) other =
      insert_cluster-Kept u db id tenant provider region now other
  tenants_isolated (set_cluster_heartbeat id now) other =
      clusters_kept u db id (λ c. record c { last_heartbeat = some now; status = healthy }) other
        (λ c. refl)
  tenants_isolated (set_cluster_status id status) other = update_cluster_status-Kept id status other
  tenants_isolated (insert_adjustment id tenant r amount reason transfer now) other =
      insert_credit_adjustment-Kept u db id tenant r amount reason transfer now other
  tenants_isolated (insert_global_account r t account now) other =
      insert_global_tb_account-Kept u db r t account now
  tenants_isolated (insert_config tenant r hard soft) other =
      insert_quota_config-Kept u db tenant r hard soft other
  tenants_isolated (insert_mapping tenant r t account now) other =
      insert_tb_account_mapping-Kept u db tenant r t account now other
  tenants_isolated (mark_alert tenant r) other = configs_kept u db true tenant r other
  tenants_isolated (reset_alert tenant r) other = configs_kept u db false tenant r other
  tenants_isolated (upsert_snapshot tenant r total posted pending now) other =
      upsert_quota_snapshot-Kept u db tenant r total posted pending now other
