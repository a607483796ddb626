-- ===== src/Db/Tenants.antt =====
-- internal/db/sqlcgen/tenants.sql.go. `none` is an error by a constraint, or that there is no row; `now`
-- is NOW().
use cloud_credit_system.Common.{
  ℕ, Bool, true, false, not, ◌&&◌, Option, none, some, List, nat_beq, ltb, if◌then◌else◌,
}
use mathlib.Core.Option
use cloud_credit_system.Db.Table.{select, select_one, exists, update_where, insert_unique, order_by}
use cloud_credit_system.Db.Schema.{
  Tenant, Database, StatusText, active, deregistered, tier_allowed, tenant_status_allowed,
}

abbrev pub is_tenant : ℕ → Tenant → Bool
is_tenant id t = nat_beq t.id id

abbrev pub is_null {ℓ} : {A : Type ℓ} → Option A → Bool
is_null none = true
is_null (some a) = false

unfoldable pub delete_tenant : ℕ → ℕ → Database → Database
delete_tenant id now db = record db {
  tenants =
      update_where (is_tenant id)
        (λ (t : Tenant). record t { status = deregistered; deleted_at = some now }) db.tenants;
}

unfoldable pub get_tenant : ℕ → Database → Option Tenant
get_tenant id db = select_one (is_tenant id) db.tenants

unfoldable pub insert_tenant : ℕ → ℕ → ℕ → ℕ → Database → Option Database
insert_tenant id name tier now db =
    if tier_allowed tier
    then Option.map (λ (rows : List Tenant). record db { tenants = rows })
        (insert_unique (is_tenant id)
          (record {
            id = id;
            name = name;
            billing_tier = tier;
            status = active;
            created_at = now;
            deleted_at = none;
          })
          db.tenants)
    else none

unfoldable pub list_tenants : Database → List Tenant
list_tenants db =
    order_by (λ (a : Tenant) (b : Tenant). ltb a.created_at b.created_at)
      (select (λ (t : Tenant). is_null t.deleted_at) db.tenants)

-- The CHECK only sees rows that are updated.
unfoldable pub update_tenant_status : ℕ → StatusText → Database → Option Database
update_tenant_status id status db =
    if exists (is_tenant id) db.tenants && not (tenant_status_allowed status)
    then none
    else some (record db {
      tenants =
          update_where (is_tenant id) (λ (t : Tenant). record t { status = status }) db.tenants;
    })
