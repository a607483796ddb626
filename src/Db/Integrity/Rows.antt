-- ===== src/Db/Integrity/Rows.antt =====
-- The statements on tenants and clusters keep the constraints.
use cloud_credit_system.Common.{
  ℕ, ◌≡◌, refl, ap, ◌∙◌, inl, inr, true, ◌&&◌, none, [], ◌∷◌, ◌++◌, Bool-cases, nat_beq,
}
use cloud_credit_system.Db.Table.{exists, update_where}
use cloud_credit_system.Db.Table.Laws.{
  exists-append, update_where_absent, update_where-All, append-IsKeyed, update_where-IsKeyed,
}
use cloud_credit_system.Db.Schema.{
  Tenant, WorkloadCluster, Database, StatusText, active, healthy, tier_allowed, provider_allowed,
  tenant_status_allowed, cluster_status_allowed,
}
use cloud_credit_system.Db.Tenants.{is_tenant, insert_tenant, update_tenant_status}
use cloud_credit_system.Db.Clusters.{is_cluster, insert_cluster, update_cluster_status}
use cloud_credit_system.Db.Integrity.{
  IsIntact, TenantIntact, ClusterIntact, with_tenants, update_tenants, with_clusters,
}
use cloud_credit_system.Db.Integrity.Keys.{
  tenant_key, cluster_key, nat_mirror, and_split, is_true, append_row-All, IsIntactIf,
}

module _ (db : Database) (h : IsIntact db) where
  pub insert_tenant-IsIntact :
      (id name tier now : ℕ) → IsIntactIf (insert_tenant id name tier now db)
  unfolding insert_tenant exists
  insert_tenant-IsIntact id name tier now = elim (Bool-cases (tier_allowed tier)) [
    | inr refused ↦ rw refused tt
    | inl allowed ↦ elim (Bool-cases (exists (is_tenant id) db.tenants)) [
      | inl there ↦ rw (allowed, there) tt
      | inr absent ↦
          rw (allowed, absent)
            (let row : Tenant = record {
              id = id;
              name = name;
              billing_tier = tier;
              status = active;
              created_at = now;
              deleted_at = none;
            } in
              let grown = append-IsKeyed tenant_key (λ a b. nat_mirror b.id a.id) in
              with_tenants db h (db.tenants ++ (row ∷ []))
                (λ other there.
                  exists-append (is_tenant other) db.tenants (row ∷ []) ∙ is_true _ there)
                (
                  grown db.tenants row absent h.tenants.0,
                  append_row-All TenantIntact db.tenants row h.tenants.1 (allowed, refl),
                ))
    ]
  ]

  pub insert_cluster-IsIntact :
      (id tenant provider region now : ℕ)
      → IsIntactIf (insert_cluster id tenant provider region now db)
  unfolding insert_cluster
  insert_cluster-IsIntact id tenant provider region now =
      elim (Bool-cases (provider_allowed provider && exists (is_tenant tenant) db.tenants)) [
        | inr refused ↦ rw refused tt
        | inl allowed ↦ elim (Bool-cases (exists (is_cluster id) db.workload_clusters)) [
          | inl there ↦ rw (allowed, there) tt
          | inr absent ↦
              rw (allowed, absent)
                (let row : WorkloadCluster = record {
                  id = id;
                  tenant_id = tenant;
                  cloud_provider = provider;
                  region = region;
                  last_heartbeat = none;
                  status = healthy;
                  agent_version = none;
                  deregistered_at = none;
                  created_at = now;
                } in
                  let (known, owned) = and_split (provider_allowed provider) _ allowed in
                  let grown = append-IsKeyed cluster_key (λ a b. nat_mirror b.id a.id) in
                  with_clusters db h (db.workload_clusters ++ (row ∷ [])) (
                    grown db.workload_clusters row absent h.clusters.0,
                    append_row-All (ClusterIntact db.tenants) db.workload_clusters row h.clusters.1
                        (known, refl, owned),
                  ))
        ]
      ]

  -- An update of clusters that keeps IDs, providers and tenants, and sets a status that is allowed.
  pub update_clusters :
      (id : ℕ) (change : WorkloadCluster → WorkloadCluster)
      → ((c : WorkloadCluster) → (change c).id ≡ c.id)
      → ((c : WorkloadCluster)
          → is_cluster id c ≡ true
          → ClusterIntact db.tenants c
          → ClusterIntact db.tenants (change c))
      → IsIntact (record db {
        workload_clusters = update_where (is_cluster id) change db.workload_clusters;
      })
  update_clusters id change keeps_id keeps =
      with_clusters db h (update_where (is_cluster id) change db.workload_clusters) (
        update_where-IsKeyed cluster_key (is_cluster id) change db.workload_clusters
            (λ a b. ap (λ i. nat_beq i a.id) (keeps_id b))
            (λ a b. ap (λ i. nat_beq b.id i) (keeps_id a)) h.clusters.0,
        update_where-All (ClusterIntact db.tenants) (is_cluster id) change db.workload_clusters
            keeps h.clusters.1,
      )

  pub update_tenant_status-IsIntact :
      (id : ℕ) (status : StatusText) → IsIntactIf (update_tenant_status id status db)
  unfolding update_tenant_status
  update_tenant_status-IsIntact id status =
      let change : Tenant → Tenant = λ t. record t { status = status } in
      elim (Bool-cases (exists (is_tenant id) db.tenants)) [
        | inr absent ↦ rw (absent, update_where_absent (is_tenant id) change db.tenants absent) h
        | inl there ↦ elim (Bool-cases (tenant_status_allowed status)) [
          | inr refused ↦ rw (there, refused) tt
          | inl allowed ↦
              rw (there, allowed)
                (update_tenants db h id change (λ t. refl) (λ t. refl) (λ t chosen. allowed))
        ]
      ]

  pub update_cluster_status-IsIntact :
      (id : ℕ) (status : StatusText) → IsIntactIf (update_cluster_status id status db)
  unfolding update_cluster_status
  update_cluster_status-IsIntact id status =
      let change : WorkloadCluster → WorkloadCluster = λ c. record c { status = status } in
      elim (Bool-cases (exists (is_cluster id) db.workload_clusters)) [
        | inr absent ↦
            rw (absent, update_where_absent (is_cluster id) change db.workload_clusters absent) h
        | inl there ↦ elim (Bool-cases (cluster_status_allowed status)) [
          | inr refused ↦ rw (there, refused) tt
          | inl allowed ↦
              rw (there, allowed)
                (update_clusters id change (λ c. refl)
                  (λ c chosen (known, _, owned). (known, allowed, owned)))
        ]
      ]
