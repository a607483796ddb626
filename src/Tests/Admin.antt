-- ===== src/Tests/Admin.antt =====
-- The admin handler on the workflows, and the activities that write rows.
use cloud_credit_system.Common.{ℕ, ◌≡◌, refl, true, none, some, [], ◌∷◌, nat_key}
use cloud_credit_system.Common.Int.{pos}
use cloud_credit_system.Common.Maps.{Map}
use cloud_credit_system.Domain.Resource.{cpu_hours, resource_key}
use cloud_credit_system.Accounting.Workflow.State.{TenantAccountingState}
use cloud_credit_system.Accounting.Pg.Rows.{Tables, active, insert_tenant}
use cloud_credit_system.Accounting.Pg.Rows.Retry.{tenant_not_retried}
use cloud_credit_system.Gateway.Admin.{AdminServices, IssueTenantCreditRequest}
use cloud_credit_system.Tests.Inputs.{waiting}

-- Services without rows.
abbrev empty_services : AdminServices (Map ℕ TenantAccountingState × ℕ)
empty_services = record {
  parse_uuid = λ t. some t;
  uuid_text = λ n. n;
  utc_text = λ n. n;
  hex_text = λ b. 1;
  update_workflow = λ t sig w. (none, w);
  get_quota_snapshots = λ t w. none;
  list_tenants = λ w. none;
  list_credit_adjustments_by_tenant = λ t w. none;
  list_clusters_by_tenant = λ t w. none;
  delete_tenant = λ t w. (true, w);
  deregister_cluster = λ t w. (true, w);
}

abbrev surge : IssueTenantCreditRequest
surge = record { tenant_id = 1; resource_type = cpu_hours; amount = pos 500; reason = 0 }

abbrev tenants : Map ℕ TenantAccountingState
tenants = (1, waiting) ∷ []

abbrev no_rows : Tables
no_rows = record { tenants = []; clusters = []; accounts = []; adjustments = [] }

abbrev one_tenant : Tables
one_tenant = record no_rows {
  tenants = (7, record { name = 3; billing_tier = 1; status = active; deleted_at = none }) ∷ [];
}

tenant_not_retried_example : insert_tenant (λ t. some t) 7 3 1 one_tenant ≡ none
unfolding insert_tenant
tenant_not_retried_example = tenant_not_retried (λ t. some t) 7 3 1 no_rows one_tenant refl
