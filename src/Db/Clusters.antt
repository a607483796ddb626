-- ===== src/Db/Clusters.antt =====
-- internal/db/sqlcgen/clusters.sql.go.
use cloud_credit_system.Common.{
  ℕ, Bool, true, false, not, ◌&&◌, Option, none, some, List, nat_beq, ltb, if◌then◌else◌,
}
use mathlib.Core.Option
use cloud_credit_system.Db.Table.{select, select_one, exists, update_where, insert_unique, order_by}
use cloud_credit_system.Db.Schema.{
  WorkloadCluster, Database, StatusText, healthy, deregistered, suspended, provider_allowed,
  cluster_status_allowed,
}
use cloud_credit_system.Db.Tenants.{is_tenant, is_null}

abbrev pub is_cluster : ℕ → WorkloadCluster → Bool
is_cluster id c = nat_beq c.id id

unfoldable pub deregister_cluster : ℕ → ℕ → Database → Database
deregister_cluster id now db = record db {
  workload_clusters =
      update_where (is_cluster id)
        (λ (c : WorkloadCluster). record c { status = deregistered; deregistered_at = some now })
        db.workload_clusters;
}

unfoldable pub get_cluster : ℕ → Database → Option WorkloadCluster
get_cluster id db = select_one (is_cluster id) db.workload_clusters

-- The tenant must be a row of tenants.
unfoldable pub insert_cluster : ℕ → ℕ → ℕ → ℕ → ℕ → Database → Option Database
insert_cluster id tenant provider region now db =
    if provider_allowed provider && exists (is_tenant tenant) db.tenants
    then Option.map (λ (rows : List WorkloadCluster). record db { workload_clusters = rows })
        (insert_unique (is_cluster id)
          (record {
            id = id;
            tenant_id = tenant;
            cloud_provider = provider;
            region = region;
            last_heartbeat = none;
            status = healthy;
            agent_version = none;
            deregistered_at = none;
            created_at = now;
          })
          db.workload_clusters)
    else none

unfoldable pub list_clusters_by_tenant : ℕ → Database → List WorkloadCluster
list_clusters_by_tenant tenant db =
    order_by (λ (a : WorkloadCluster) (b : WorkloadCluster). ltb a.created_at b.created_at)
      (select (λ (c : WorkloadCluster). nat_beq c.tenant_id tenant && is_null c.deregistered_at)
        db.workload_clusters)

-- NOT IN ('deregistered', 'suspended')
abbrev pub is_watched : StatusText → Bool
is_watched deregistered = false
is_watched suspended = false
is_watched _ = true

-- `last_heartbeat IS NULL OR last_heartbeat < $1`
abbrev pub seen_before : ℕ → Option ℕ → Bool
seen_before t none = true
seen_before t (some seen) = ltb seen t

-- Rising, NULL last.
abbrev pub seen_earlier : Option ℕ → Option ℕ → Bool
seen_earlier none b = false
seen_earlier (some a) none = true
seen_earlier (some a) (some b) = ltb a b

unfoldable pub list_stale_clusters : ℕ → Database → List WorkloadCluster
list_stale_clusters t db =
    order_by
      (λ (a : WorkloadCluster) (b : WorkloadCluster).
        seen_earlier a.last_heartbeat b.last_heartbeat)
      (select (λ (c : WorkloadCluster). is_watched c.status && seen_before t c.last_heartbeat)
        db.workload_clusters)

unfoldable pub update_cluster_heartbeat : ℕ → ℕ → Database → Database
update_cluster_heartbeat id now db = record db {
  workload_clusters =
      update_where (is_cluster id)
        (λ (c : WorkloadCluster). record c { last_heartbeat = some now; status = healthy })
        db.workload_clusters;
}

unfoldable pub update_cluster_status : ℕ → StatusText → Database → Option Database
update_cluster_status id status db =
    if exists (is_cluster id) db.workload_clusters && not (cluster_status_allowed status)
    then none
    else some (record db {
      workload_clusters =
          update_where (is_cluster id) (λ (c : WorkloadCluster). record c { status = status })
            db.workload_clusters;
    })
