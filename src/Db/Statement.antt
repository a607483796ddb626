-- ===== src/Db/Statement.antt =====
-- The statements of internal/db/sqlcgen that write, as data. `none` is an error, which changes nothing.
use cloud_credit_system.Common.{ℕ, Option, none, some, List, [], ◌∷◌}
use cloud_credit_system.Common.Int.{ℤ}
use cloud_credit_system.Domain.Resource.{ResourceType}
use cloud_credit_system.Domain.Codes.{AccountType}
use cloud_credit_system.Db.Schema.{Database, StatusText}
use cloud_credit_system.Db.Tenants.{delete_tenant, insert_tenant, update_tenant_status}
use cloud_credit_system.Db.Clusters.{
  deregister_cluster, insert_cluster, update_cluster_heartbeat, update_cluster_status,
}
use cloud_credit_system.Db.Quota.{
  insert_credit_adjustment, insert_global_tb_account, insert_quota_config,
  insert_tb_account_mapping, mark_soft_limit_alert_sent, reset_soft_limit_alert,
  upsert_quota_snapshot,
}

-- Each with the arguments of its function, and at the end the time, after the ID that the database draws.
pub data Statement : Type 0 where
  delete_tenant_row : ℕ → ℕ → Statement
  insert_tenant_row : ℕ → ℕ → ℕ → ℕ → Statement
  set_tenant_status : ℕ → StatusText → Statement
  deregister_cluster_row : ℕ → ℕ → Statement
  insert_cluster_row : ℕ → ℕ → ℕ → ℕ → ℕ → Statement
  set_cluster_heartbeat : ℕ → ℕ → Statement
  set_cluster_status : ℕ → StatusText → Statement
  insert_adjustment : ℕ → ℕ → ResourceType → ℤ → Option ℕ → ℕ → ℕ → Statement
  insert_global_account : ResourceType → AccountType → ℕ → ℕ → Statement
  insert_config : ℕ → ResourceType → ℤ → Option ℤ → Statement
  insert_mapping : ℕ → ResourceType → AccountType → ℕ → ℕ → Statement
  mark_alert reset_alert : ℕ → ResourceType → Statement
  upsert_snapshot : ℕ → ResourceType → ℤ → ℤ → ℤ → ℕ → Statement

unfoldable pub execute : Statement → Database → Option Database
execute (delete_tenant_row id now) db = some (delete_tenant id now db)
execute (insert_tenant_row id name tier now) db = insert_tenant id name tier now db
execute (set_tenant_status id status) db = update_tenant_status id status db
execute (deregister_cluster_row id now) db = some (deregister_cluster id now db)
execute (insert_cluster_row id tenant provider region now) db =
    insert_cluster id tenant provider region now db
execute (set_cluster_heartbeat id now) db = some (update_cluster_heartbeat id now db)
execute (set_cluster_status id status) db = update_cluster_status id status db
execute (insert_adjustment id tenant r amount reason transfer now) db =
    insert_credit_adjustment id tenant r amount reason transfer now db
execute (insert_global_account r t account now) db = insert_global_tb_account r t account now db
execute (insert_config tenant r hard soft) db = insert_quota_config tenant r hard soft db
execute (insert_mapping tenant r t account now) db =
    insert_tb_account_mapping tenant r t account now db
execute (mark_alert tenant r) db = some (mark_soft_limit_alert_sent tenant r db)
execute (reset_alert tenant r) db = some (reset_soft_limit_alert tenant r db)
execute (upsert_snapshot tenant r total posted pending now) db =
    upsert_quota_snapshot tenant r total posted pending now db

abbrev pub or_unchanged : Database → Option Database → Database
or_unchanged db none = db
or_unchanged db (some db') = db'

unfoldable pub execute_all : List Statement → Database → Database
execute_all [] db = db
execute_all (x ∷ xs) db = execute_all xs (or_unchanged db (execute x db))
