-- ===== src/Db/Integrity/Kept.antt =====
-- Every statement keeps the constraints.
use cloud_credit_system.Common.{refl, true, false, Option, none, some, List, [], ◌∷◌}
use cloud_credit_system.Db.Schema.{Database, deregistered, healthy}
use cloud_credit_system.Db.Tenants.{delete_tenant}
use cloud_credit_system.Db.Clusters.{deregister_cluster, update_cluster_heartbeat}
use cloud_credit_system.Db.Quota.{mark_soft_limit_alert_sent, reset_soft_limit_alert}
use cloud_credit_system.Db.Statement.{
  Statement, delete_tenant_row, insert_tenant_row, set_tenant_status, deregister_cluster_row,
  insert_cluster_row, set_cluster_heartbeat, set_cluster_status, insert_adjustment,
  insert_global_account, insert_config, insert_mapping, mark_alert, reset_alert, upsert_snapshot,
  execute, or_unchanged, execute_all,
}
use cloud_credit_system.Db.Integrity.{IsIntact, update_tenants}
use cloud_credit_system.Db.Integrity.Keys.{IsIntactIf}
use cloud_credit_system.Db.Integrity.Rows.{
  update_clusters, insert_tenant-IsIntact, insert_cluster-IsIntact, update_tenant_status-IsIntact,
  update_cluster_status-IsIntact,
}
use cloud_credit_system.Db.Integrity.QuotaRows.{
  set_alert-IsIntact, insert_quota_config-IsIntact, insert_tb_account_mapping-IsIntact,
  insert_global_tb_account-IsIntact, insert_credit_adjustment-IsIntact,
  upsert_quota_snapshot-IsIntact,
}

module _ (db : Database) (h : IsIntact db) where
  execute-IsIntact : (x : Statement) → IsIntactIf (execute x db)
  unfolding execute delete_tenant deregister_cluster update_cluster_heartbeat
      mark_soft_limit_alert_sent reset_soft_limit_alert
  execute-IsIntact (delete_tenant_row id now) =
      update_tenants db h id (λ t. record t { status = deregistered; deleted_at = some now })
        (λ t. refl) (λ t. refl) (λ t chosen. refl)
  execute-IsIntact (insert_tenant_row id name tier now) =
      insert_tenant-IsIntact db h id name tier now
  execute-IsIntact (set_tenant_status id status) = update_tenant_status-IsIntact db h id status
  execute-IsIntact (deregister_cluster_row id now) =
      update_clusters db h id (λ c. record c { status = deregistered; deregistered_at = some now })
        (λ c. refl) (λ c chosen (known, _, owned). (known, refl, owned))
  execute-IsIntact (insert_cluster_row id tenant provider region now) =
      insert_cluster-IsIntact db h id tenant provider region now
  execute-IsIntact (set_cluster_heartbeat id now) =
      update_clusters db h id (λ c. record c { last_heartbeat = some now; status = healthy })
        (λ c. refl) (λ c chosen (known, _, owned). (known, refl, owned))
  execute-IsIntact (set_cluster_status id status) = update_cluster_status-IsIntact db h id status
  execute-IsIntact (insert_adjustment id tenant r amount reason transfer now) =
      insert_credit_adjustment-IsIntact db h id tenant r amount reason transfer now
  execute-IsIntact (insert_global_account r t account now) =
      insert_global_tb_account-IsIntact db h r t account now
  execute-IsIntact (insert_config tenant r hard soft) =
      insert_quota_config-IsIntact db h tenant r hard soft
  execute-IsIntact (insert_mapping tenant r t account now) =
      insert_tb_account_mapping-IsIntact db h tenant r t account now
  execute-IsIntact (mark_alert tenant r) = set_alert-IsIntact db h true tenant r
  execute-IsIntact (reset_alert tenant r) = set_alert-IsIntact db h false tenant r
  execute-IsIntact (upsert_snapshot tenant r total posted pending now) =
      upsert_quota_snapshot-IsIntact db h tenant r total posted pending now

-- Any statements, in any order and with any errors, keep every constraint of the schema.
pub execute_all-IsIntact :
    (xs : List Statement) (db : Database) → IsIntact db → IsIntact (execute_all xs db)
unfolding execute_all
execute_all-IsIntact [] db h = h
execute_all-IsIntact (x ∷ xs) db h =
    execute_all-IsIntact xs (or_unchanged db (execute x db))
      (unchanged (execute x db) (execute-IsIntact db h x))
  where
    unchanged : (o : Option Database) → IsIntactIf o → IsIntact (or_unchanged db o)
    unchanged none u = h
    unchanged (some db') h' = h'
