-- ===== src/Gateway/Provisioning/Register.antt =====
-- internal/gateway/provisioning_handler.go: RegisterTenant and RegisterCluster, and the IDs of
-- workflows at the end of internal/accounting/workflow_provisioning.go. Starting a workflow and
-- waiting for it are calls of Temporal.
pub mod Waited
use cloud_credit_system.Common.{
  ℕ, ◌≡◌, refl, ap, inl, inr, Bool, true, false, ◌&&◌, List, arith, if◌then◌else◌, Result, ok, err,
  Bool-cases,
}
use cloud_credit_system.Common.Int.{ℤ, pos, ltb_ℤ}
use cloud_credit_system.Common.Maps.{Map, lookup}
use cloud_credit_system.Domain.Resource.{ResourceType}
use cloud_credit_system.Common.{some}
use cloud_credit_system.Ledger.Accounts.{GlobalAccountKey}
use cloud_credit_system.Accounting.Provisioning.{
  TenantProvisioningInput, RegisterClusterWorkflowInput, ProvisioningActivities, ProvisioningError,
  tenant_provisioning, register_cluster_workflow,
}
use cloud_credit_system.Accounting.Provisioning.Steps.{Provisioned, tenant_provisioning-Provisioned}
use cloud_credit_system.Gateway.Provisioning.{
  RegisterTenantRequest, default_credits, register_tenant_input,
}
use cloud_credit_system.Gateway.Provisioning.Credits.{asked, lookup-tenant_credits}

-- The three families of IDs: a prefix, and the ID of a tenant or a cluster.
pub data WorkflowId : Type 0 where
  accounting_workflow_id provisioning_workflow_id : ℕ → WorkflowId
  cluster_registration_workflow_id : ℕ → WorkflowId

-- ExecuteWorkflow and `run.Get`, for the two workflows.
pub record WorkflowClient (W : Type 0) : Type 0 where
  pub execute_provisioning : WorkflowId → TenantProvisioningInput → W → Bool × W
  pub await_provisioning : WorkflowId → TenantProvisioningInput → W → Bool × W
  pub execute_registration : WorkflowId → RegisterClusterWorkflowInput → W → Bool × W
  pub await_registration : WorkflowId → RegisterClusterWorkflowInput → W → Bool × W

pub data RegisterError : Type 0 where
  workflow_not_started workflow_failed : RegisterError

pub record RegisterClusterRequest : Type 0 where
  pub tenant_id : ℕ
  pub cloud_provider : ℕ
  pub region : ℕ

-- The wait, once the workflow was started.
unfoldable pub await_workflow : {W : Type 0} → ℕ → (W → Bool × W) → W → Result RegisterError ℕ × W
await_workflow id await w =
    let (completed, w') = await w in
    elim completed [ true ↦ (ok id, w') | false ↦ (err workflow_failed, w') ]

-- Starts a workflow and waits for it; `id` is the answer.
unfoldable pub run_workflow :
    {W : Type 0} → ℕ → (W → Bool × W) → (W → Bool × W) → W → Result RegisterError ℕ × W
run_workflow id execute await w =
    let (is_running, w') = execute w in
    elim is_running [ true ↦ await_workflow id await w' | false ↦ (err workflow_not_started, w') ]

unfoldable pub register_cluster_input : RegisterClusterRequest → ℕ → RegisterClusterWorkflowInput
register_cluster_input r id = record {
  cluster_id = id;
  tenant_id = r.tenant_id;
  cloud_provider = r.cloud_provider;
  region = r.region;
}

module _ {W : Type 0} (temporal : WorkflowClient W) where
  -- The new ID is `id` with the bytes `uuid`, and `now` is the time.
  unfoldable pub register_tenant :
      Map GlobalAccountKey ℕ → RegisterTenantRequest → ℕ → ℕ → ℤ → W → Result RegisterError ℕ × W
  register_tenant accounts r id uuid now =
      let input = register_tenant_input accounts r id uuid now in
      run_workflow id (temporal.execute_provisioning (provisioning_workflow_id id) input)
        (temporal.await_provisioning (provisioning_workflow_id id) input)

  unfoldable pub register_cluster : RegisterClusterRequest → ℕ → W → Result RegisterError ℕ × W
  register_cluster r id =
      let input = register_cluster_input r id in
      run_workflow id (temporal.execute_registration (cluster_registration_workflow_id id) input)
        (temporal.await_registration (cluster_registration_workflow_id id) input)
