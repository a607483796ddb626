-- ===== src/Gateway/Heartbeat/Cached.antt =====
-- The cache of tenants by cluster.
use cloud_credit_system.Common.{
  ℕ, ◌≡◌, inl, inr, true, some, arith, nat_key, Result, ok, err, Option-cases,
}
use cloud_credit_system.Common.Maps.{lookup, lookup-insert}
use cloud_credit_system.Gateway.Heartbeat.Resolve.{
  Services, HandlerError, Cache, attempts, max_attempts, remember, resolve_tenant_id,
}

module _ {W : Type 0} (sv : Services W) where
  remembered :
      (cluster tenant : ℕ) (cache cache' : Cache) (w' : W) (r : Result HandlerError ℕ × W)
      → remember sv cluster cache r ≡ (ok tenant, cache', w')
      → lookup cluster cache' ≡ some tenant
  remembered cluster tenant cache cache' w' (ok t, w) h =
      ground (arith, h, lookup-insert cluster cluster t cache)
  remembered cluster tenant cache cache' w' (err e, w) h = absurd (cc h)

  cached_after :
      (cluster tenant : ℕ) (cache cache' : Cache) (w w' : W)
      → resolve_tenant_id sv cluster cache w ≡ (ok tenant, cache', w')
      → lookup cluster cache' ≡ some tenant
  unfolding resolve_tenant_id
  cached_after cluster tenant cache cache' w w' h = elim (Option-cases (lookup cluster cache)) [
    | inr (t, e) ↦ ground (arith, h, e)
    | inl e ↦ elim (Option-cases (sv.parse_uuid cluster)) [
      | inl n ↦ absurd (ground (arith, h, e, n))
      | inr (uuid, u) ↦
          remembered cluster tenant cache cache' w' (attempts sv max_attempts true uuid w)
            (ground (arith, h, e, u))
    ]
  ]

  -- Once the tenant of a cluster is resolved, it is resolved to the same tenant, without a query or a
  -- wait, on any later world, as long as the cache is kept.
  pub resolved_once :
      (cluster tenant : ℕ) (cache cache' : Cache) (w w' later : W)
      → resolve_tenant_id sv cluster cache w ≡ (ok tenant, cache', w')
      → resolve_tenant_id sv cluster cache' later ≡ (ok tenant, cache', later)
  unfolding resolve_tenant_id
  resolved_once cluster tenant cache cache' w w' later h =
      let found = cached_after cluster tenant cache cache' w w' h in ground (arith, found)
