-- ===== src/Tests/Provisioning.antt =====
-- A provisioning on its own activities.
use cloud_credit_system.Common.{
  ℕ, ◌≡◌, refl, true, Option, none, some, [], ◌∷◌, nat_beq, if◌then◌else◌,
}
use cloud_credit_system.Common.Int.{pos}
use cloud_credit_system.Common.Maps.{Map, lookup}
use cloud_credit_system.Domain.Resource.{
  ResourceType, resource_key, cpu_hours, memory_gb_hours, active_nodes,
}
use cloud_credit_system.Accounting.Provisioning.{
  TenantProvisioningInput, started, tenant_provisioning, alloc_transfer_ids, store_mapping,
  load_wallet, start_tenant, provisioning_allocation,
}
use cloud_credit_system.Accounting.TbActivities.Balances.{create_tenant_tb_accounts}
use cloud_credit_system.Accounting.TbActivities.Allocations.{
  allocation_of, allocations_of, submit_nonempty, submit_allocation_transfers,
}
use cloud_credit_system.Ledger.Accounts.{
  chosen_ids, chosen_accounts, tenant_account, check_created, create_chosen,
  create_tenant_quota_accounts,
}
use cloud_credit_system.Ledger.Transfers.{
  allocation_transfer, build_allocations, submit_allocations, mark_failed, classify, classify_from,
  submit_batch,
}
use cloud_credit_system.Db.Quota.{insert_tb_account_mapping}
use cloud_credit_system.Db.Tenants.{get_tenant}
use cloud_credit_system.System.World.{Occasion, World, retry}
use cloud_credit_system.System.Provisioning.{
  add_tenant, map_all, insert_tenant_activity, insert_tb_account_mapping_activity,
  system_provisioning,
}
use cloud_credit_system.System.Mapping.{mapped}
use cloud_credit_system.System.Inserted.{tenant_row}
use cloud_credit_system.System.Provisioned.{provisioned_rows}
use cloud_credit_system.Gateway.Provisioning.{
  RegisterTenantRequest, starter, default_credits, tenant_credits, accounts_of,
  register_tenant_input,
}
use cloud_credit_system.Gateway.Provisioning.Register.{
  WorkflowClient, await_workflow, run_workflow, register_tenant,
}
use cloud_credit_system.Gateway.Provisioning.Register.Waited.{connected}
use cloud_credit_system.Tests.Inputs.{plain, first_run}
use cloud_credit_system.Tests.Bank.{bank, Wallet}
use cloud_credit_system.Tests.Database.{two_tenants, two_tenants-IsIntact, statements}

abbrev newcomer : TenantProvisioningInput
newcomer = record {
  tenant_id = 9;
  tenant_uuid = 77;
  name = 5;
  billing_tier = 1;
  credits = (cpu_hours, pos 1000) ∷ [];
  global_operator_ids = first_run.global_operator_ids;
  global_sink_ids = first_run.global_sink_ids;
  period_start_ns = pos 123;
}

abbrev as_uuid : ℕ → Option ℕ
as_uuid text = some text

-- The third attempt, the first of InsertTBAccountMapping, is cut off after one statement.
abbrev uneven : ℕ → Occasion
uneven i = record {
  random = λ n. n;
  range = λ m. m;
  order = λ b. b;
  account_order = λ m. m;
  reaches = λ n. if nat_beq i 2 then nat_beq n 0 else true;
  answered = true;
  now = 300;
}

abbrev before : World Wallet
before = record { store = record { credits = 150; debits = 20 }; db = two_tenants; attempts = 0 }

abbrev after : World Wallet
after =
    (tenant_provisioning plain
      (system_provisioning bank as_uuid uneven (λ i w. started) (λ t s w. true)) newcomer before).1

-- The accounts under the IDs that were drawn.
abbrev drawn : Map ResourceType ℕ
drawn = (cpu_hours, 0) ∷ (memory_gb_hours, 1) ∷ (active_nodes, 2) ∷ []

-- The definitions that a provisioning computes with.
provisioning : Unit {0}
unfolding statements tenant_provisioning system_provisioning retry insert_tenant_activity add_tenant
    create_tenant_tb_accounts create_tenant_quota_accounts create_chosen chosen_accounts chosen_ids
    tenant_account check_created store_mapping insert_tb_account_mapping_activity map_all
    insert_tb_account_mapping alloc_transfer_ids load_wallet start_tenant provisioning_allocation
    submit_allocation_transfers submit_nonempty allocations_of allocation_of submit_allocations
    build_allocations allocation_transfer submit_batch mark_failed classify_from classify
provisioning = tt

provisioned_rows_example :
    (get_tenant 9 two_tenants ≡ none)
    × (now : ℕ) × (get_tenant 9 after.db ≡ some (tenant_row 9 5 1 now))
    × (mapped 9 cpu_hours after.db ≡ lookup cpu_hours drawn)
unfolding provisioning
provisioned_rows_example =
    provisioned_rows bank as_uuid uneven (λ i w. started) (λ t s w. true) newcomer 9 refl plain
      (λ n m u r. refl) before after drawn cpu_hours two_tenants-IsIntact refl

abbrev temporal : WorkflowClient (World Wallet)
temporal = record {
  execute_provisioning = λ id input w. (true, w);
  await_provisioning = λ id input w. (true, w);
  execute_registration = λ id input w. (true, w);
  await_registration = λ id input w. (true, w);
}

abbrev request : RegisterTenantRequest
request = record {
  name = 5;
  billing_tier = starter;
  cpu_hours_credits = pos 300;
  memory_gb_hours_credits = pos 0;
  active_nodes_limit = pos 0;
}

abbrev registered : World Wallet
registered =
    (register_tenant
      (connected plain (system_provisioning bank as_uuid uneven (λ i w. started) (λ t s w. true))
        temporal)
      [] request 9 77 (pos 123) before).1

-- The definitions that a registration computes with.
registration : Unit {0}
unfolding provisioning register_tenant connected register_tenant_input tenant_credits
    default_credits run_workflow await_workflow accounts_of
registration = tt

abbrev new_id : ℕ
new_id = 9
