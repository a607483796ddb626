-- ===== src/Tests/Database.antt =====
-- The statements on a database of two tenants.
use cloud_credit_system.Common.{◌≡◌, refl, none, some, List, [], ◌∷◌, length}
use mathlib.Core.Option
use cloud_credit_system.Common.Int.{pos}
use cloud_credit_system.Domain.Resource.{cpu_hours}
use cloud_credit_system.Db.Table.{select_one, exists, update_where}
use cloud_credit_system.Db.Schema.{WorkloadCluster, Database, empty_database}
use cloud_credit_system.Db.Tenants.{delete_tenant, insert_tenant, update_tenant_status, get_tenant}
use cloud_credit_system.Db.Clusters.{deregister_cluster, insert_cluster, get_cluster}
use cloud_credit_system.Db.Quota.{insert_quota_config, upsert_quota_snapshot}
use cloud_credit_system.Db.Statement.{
  Statement, insert_tenant_row, deregister_cluster_row, insert_cluster_row, upsert_snapshot,
  execute, or_unchanged, execute_all,
}
use cloud_credit_system.Db.Integrity.{IsIntact}
use cloud_credit_system.Db.Integrity.Kept.{execute_all-IsIntact}
use cloud_credit_system.Db.Isolation.{view, concerns}
use cloud_credit_system.Db.Isolation.Apart.{tenants_isolated}

-- Two tenants with a cluster each; the third tenant has a tier that the CHECK refuses, and the third
-- cluster a tenant that is not there.
abbrev pub registrations : List Statement
registrations =
    insert_tenant_row 1 10 0 100
    ∷ insert_tenant_row 2 20 3 101
    ∷ insert_tenant_row 3 30 4 102
    ∷ insert_cluster_row 5 1 0 0 103
    ∷ insert_cluster_row 6 2 1 0 104
    ∷ insert_cluster_row 7 3 1 0 105
    ∷ upsert_snapshot 2 cpu_hours (pos 100) (pos 40) (pos 0) 106
    ∷ []

abbrev pub two_tenants : Database
two_tenants = execute_all registrations empty_database

-- The definitions that a run of statements computes with.
unfoldable pub statements : Unit {0}
unfolding execute_all execute insert_tenant insert_cluster insert_quota_config upsert_quota_snapshot
    update_tenant_status delete_tenant deregister_cluster get_tenant get_cluster select_one exists
    update_where
statements = tt

-- The refused rows are not there.
two_tenants_lengths :
    (length two_tenants.tenants ≡ 2)
    × (length two_tenants.workload_clusters ≡ 2)
    × (get_tenant 3 two_tenants ≡ none)
    × (get_cluster 7 two_tenants ≡ none)
unfolding statements
two_tenants_lengths = (refl, refl, refl, refl)

-- A cluster that is deregistered is still found, with its tenant.
still_found :
    Option.map
      (λ (c : WorkloadCluster). c.tenant_id)
      (get_cluster 5 (deregister_cluster 5 200 two_tenants))
    ≡ some 1
unfolding statements
still_found = refl

empty_database-IsIntact : IsIntact empty_database
empty_database-IsIntact = record {
  tenants = (tt, tt);
  clusters = (tt, tt);
  configs = (tt, tt);
  accounts = (tt, tt);
  globals = (tt, tt);
  snapshots = (tt, tt);
  adjustments = (tt, tt);
}

pub two_tenants-IsIntact : IsIntact two_tenants
two_tenants-IsIntact = execute_all-IsIntact registrations empty_database empty_database-IsIntact

-- The cluster of tenant 1 is deregistered; tenant 2 sees nothing of it.
tenants_isolated_example :
    view 2 (or_unchanged two_tenants (execute (deregister_cluster_row 5 200) two_tenants))
    ≡ view 2 two_tenants
unfolding statements concerns
tenants_isolated_example = tenants_isolated 2 two_tenants (deregister_cluster_row 5 200) refl
