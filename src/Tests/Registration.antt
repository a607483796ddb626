-- ===== src/Tests/Registration.antt =====
-- The provisioning handler on the workflows.
use cloud_credit_system.Common.{ℕ, ◌+◌, true, [], ◌∷◌, nat_key}
use cloud_credit_system.Common.Int.{pos}
use cloud_credit_system.Common.Maps.{Map}
use cloud_credit_system.Domain.Resource.{resource_key, cpu_hours}
use cloud_credit_system.Domain.Codes.{operator}
use cloud_credit_system.Ledger.Accounts.{GlobalAccountKey}
use cloud_credit_system.Accounting.Provisioning.{
  alloc_transfer_ids, tenant_provisioning, store_mapping, load_wallet, start_tenant,
  register_cluster_workflow,
}
use cloud_credit_system.Gateway.Provisioning.{
  RegisterTenantRequest, starter, default_credits, tenant_credits, register_tenant_input,
}
use cloud_credit_system.Gateway.Provisioning.Register.{
  WorkflowClient, RegisterClusterRequest, register_cluster_input, await_workflow, run_workflow,
  register_tenant, register_cluster,
}
use cloud_credit_system.Gateway.Provisioning.Register.Waited.{connected}

-- The definitions that a registration computes with.
registration : Unit {0}
unfolding register_tenant connected register_tenant_input tenant_credits default_credits
    tenant_provisioning store_mapping load_wallet start_tenant alloc_transfer_ids register_cluster
    register_cluster_input register_cluster_workflow run_workflow await_workflow
registration = tt

abbrev temporal : WorkflowClient ℕ
temporal = record {
  execute_provisioning = λ id input w. (true, w + 1);
  await_provisioning = λ id input w. (true, w);
  execute_registration = λ id input w. (true, w + 1);
  await_registration = λ id input w. (true, w);
}

abbrev globals : Map GlobalAccountKey ℕ
globals = (record { resource = cpu_hours; account_type = operator }, 21) ∷ []

abbrev newcomer : RegisterTenantRequest
newcomer = record {
  name = 5;
  billing_tier = starter;
  cpu_hours_credits = pos 300;
  memory_gb_hours_credits = pos 0;
  active_nodes_limit = pos 0;
}

abbrev new_tenant_id : ℕ
new_tenant_id = 4

abbrev new_cluster : RegisterClusterRequest
new_cluster = record { tenant_id = 4; cloud_provider = 1; region = 2 }

abbrev new_cluster_id : ℕ
new_cluster_id = 8
