-- ===== src/Gateway/Provisioning/Credits.antt =====
-- The credits a new tenant starts with.
use cloud_credit_system.Common.{◌≡◌, some, arith, if◌then◌else◌, ◌==◌}
use cloud_credit_system.Common.Int.{ℤ, pos, ltb_ℤ}
use cloud_credit_system.Common.Maps.{Map, lookup, lookup-insert}
use cloud_credit_system.Domain.Resource.{
  ResourceType, resource_key, cpu_hours, memory_gb_hours, active_nodes, other,
}
use cloud_credit_system.Ledger.Accounts.{global_key}
use cloud_credit_system.Gateway.Provisioning.{
  default_credits, RegisterTenantRequest, override, tenant_credits,
}

-- What the request asks for of a resource.
abbrev pub asked : RegisterTenantRequest → ResourceType → ℤ
asked r cpu_hours = r.cpu_hours_credits
asked r memory_gb_hours = r.memory_gb_hours_credits
asked r active_nodes = r.active_nodes_limit
asked r (other n) = pos 0

lookup-override :
    (q r : ResourceType) (x : ℤ) (credits : Map ResourceType ℤ)
    → lookup q (override r x credits) ≡ (
        if ltb_ℤ (pos 0) x then (if r == q then some x else lookup q credits) else lookup q credits)
lookup-override q r x credits = ground (arith, lookup-insert r q x credits)

-- The initial credit of a resource is what the request asks for if that is positive, and what the plan
-- has otherwise.
pub lookup-tenant_credits :
    (r : RegisterTenantRequest) (q : ResourceType)
    → lookup q (tenant_credits r) ≡ (
        if ltb_ℤ (pos 0) (asked r q)
        then some (asked r q)
        else lookup q (default_credits r.billing_tier))
unfolding tenant_credits
lookup-tenant_credits r q =
    let base = default_credits r.billing_tier in
    let first = override cpu_hours r.cpu_hours_credits base in
    let second = override memory_gb_hours r.memory_gb_hours_credits first in
    rw
      (
        lookup-override q active_nodes r.active_nodes_limit second,
        lookup-override q memory_gb_hours r.memory_gb_hours_credits first,
        lookup-override q cpu_hours r.cpu_hours_credits base,
      )
      (ground arith)
