-- ===== src/Gateway/Provisioning.antt =====
-- internal/gateway/provisioning_handler.go: the plans, and the input of the workflow that RegisterTenant
-- starts; the handlers stand in Register.
pub mod Credits
pub mod Register
use cloud_credit_system.Common.{
  ℕ, ◌+◌, Bool, true, false, Option, none, some, List, [], ◌∷◌, if◌then◌else◌,
}
use cloud_credit_system.Common.Int.{ℤ, pos, ltb_ℤ}
use cloud_credit_system.Common.Maps.{Map, lookup, insert}
use cloud_credit_system.Domain.Resource.{
  ResourceType, resource_key, cpu_hours, memory_gb_hours, active_nodes, all_resources,
}
use cloud_credit_system.Domain.Codes.{AccountType, operator, sink}
use cloud_credit_system.Ledger.Accounts.{GlobalAccountKey, global_key}
use cloud_credit_system.Accounting.Provisioning.{TenantProvisioningInput}

-- The billing tiers that the code tells apart, by the text of the request; any other text is free.
pub data Tier : Type 0 where
  pro starter : Tier
  other_tier : ℕ → Tier

-- The text of a tier, as a number.
abbrev pub tier_number : Tier → ℕ
tier_number pro = 0
tier_number starter = 1
tier_number (other_tier n) = 2 + n

abbrev pub plan : ℕ → ℕ → ℕ → Map ResourceType ℤ
plan cpu memory nodes =
    (cpu_hours, pos cpu) ∷ (memory_gb_hours, pos memory) ∷ (active_nodes, pos nodes) ∷ []

unfoldable pub default_credits : Tier → Map ResourceType ℤ
default_credits pro = plan 1_000_000 1_000_000 20
default_credits starter = plan 200_000 200_000 5
default_credits (other_tier n) = plan 10_000 10_000 2

pub record RegisterTenantRequest : Type 0 where
  pub name : ℕ
  pub billing_tier : Tier
  pub cpu_hours_credits : ℤ
  pub memory_gb_hours_credits : ℤ
  pub active_nodes_limit : ℤ

-- `if x > 0 { credits[r] = x }`
abbrev pub override : ResourceType → ℤ → Map ResourceType ℤ → Map ResourceType ℤ
override r x credits = if ltb_ℤ (pos 0) x then insert r x credits else credits

unfoldable pub tenant_credits : RegisterTenantRequest → Map ResourceType ℤ
tenant_credits r = override active_nodes r.active_nodes_limit (
    override memory_gb_hours r.memory_gb_hours_credits
      (override cpu_hours r.cpu_hours_credits (default_credits r.billing_tier)))

-- `if id, ok := …; ok { ids[res] = id }`
abbrev pub put_found : ResourceType → Option ℕ → Map ResourceType ℕ → Map ResourceType ℕ
put_found r none ids = ids
put_found r (some id) ids = insert r id ids

-- The accounts of one type, by resource.
unfoldable pub accounts_of :
    AccountType
    → Map GlobalAccountKey ℕ
    → List ResourceType
    → Map ResourceType ℕ
    → Map ResourceType ℕ
accounts_of t accounts [] ids = ids
accounts_of t accounts (r ∷ rs) ids =
    accounts_of t accounts rs
      (put_found r (lookup (record { resource = r; account_type = t }) accounts) ids)

-- The input of the workflow, for the new ID `id` with bytes `uuid`, at time `now`.
unfoldable pub register_tenant_input :
    Map GlobalAccountKey ℕ → RegisterTenantRequest → ℕ → ℕ → ℤ → TenantProvisioningInput
register_tenant_input accounts r id uuid now = record {
  tenant_id = id;
  tenant_uuid = uuid;
  name = r.name;
  billing_tier = tier_number r.billing_tier;
  credits = tenant_credits r;
  global_operator_ids = accounts_of operator accounts all_resources [];
  global_sink_ids = accounts_of sink accounts all_resources [];
  period_start_ns = now;
}
