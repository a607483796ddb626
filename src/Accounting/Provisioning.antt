-- ===== src/Accounting/Provisioning.antt =====
-- internal/accounting/workflow_provisioning.go: TenantProvisioningWorkflow and
-- RegisterClusterWorkflow.
pub mod Steps
pub mod Wallet
use cloud_credit_system.Common.{
  ℕ, Bool, true, false, Option, none, some, List, [], ◌∷◌, Result, ok, err,
}
use cloud_credit_system.Common.Int.{ℤ, to_u64}
use cloud_credit_system.Common.Maps.{Map, insert}
use cloud_credit_system.Domain.Resource.{ResourceType, resource_key, ledger_id}
use cloud_credit_system.Ledger.Ids.{derive_allocation_transfer_id, uint128_to_bytes}
use cloud_credit_system.Accounting.Signals.{SubmitAllocationInput, RegisterClusterSignal}
use cloud_credit_system.Accounting.Workflow.State.{TenantAccountingInput}

-- Names of tenants, tiers, providers and regions are texts that nothing here looks into.
pub record TenantProvisioningInput : Type 0 where
  pub tenant_id : ℕ
  pub tenant_uuid : ℕ
  pub name : ℕ
  pub billing_tier : ℕ
  pub credits : Map ResourceType ℤ
  pub global_operator_ids : Map ResourceType ℕ
  pub global_sink_ids : Map ResourceType ℕ
  pub period_start_ns : ℤ

pub record RegisterClusterWorkflowInput : Type 0 where
  pub cluster_id : ℕ
  pub tenant_id : ℕ
  pub cloud_provider : ℕ
  pub region : ℕ

-- The outcome of starting the child workflow.
pub data ChildStart : Type 0 where
  started already_started start_failed : ChildStart

-- The activities and the calls of Temporal, on the world `W` of the databases and the workflows.
pub record ProvisioningActivities (W : Type 0) : Type 0 where
  pub insert_tenant : ℕ → ℕ → ℕ → W → Bool × W
  pub create_tenant_tb_accounts : ℕ → W → Option (Map ResourceType ℕ) × W
  pub insert_tb_account_mapping : ℕ → Map ResourceType ℕ → W → Bool × W
  pub submit_allocation_transfers : SubmitAllocationInput → W → Bool × W
  pub start_accounting : TenantAccountingInput → W → ChildStart × W
  pub insert_cluster : RegisterClusterWorkflowInput → W → Bool × W
  pub signal_register_cluster : ℕ → RegisterClusterSignal → W → Bool × W

-- `unknown_resource` is the panic of LedgerID.
pub data ProvisioningError : Type 0 where
  insert_tenant_failed create_accounts_failed insert_mapping_failed : ProvisioningError
  unknown_resource submit_allocations_failed start_accounting_failed : ProvisioningError
  insert_cluster_failed signal_failed : ProvisioningError

-- A piece of a workflow: it runs on a world, and ends the workflow with an error or goes on.
abbrev pub Work : Type 0 → Type 0 → Type 0
Work W A = W → Result ProvisioningError A × W

infixl 5 ◌>>=◌
abbrev pub ◌>>=◌ : {W A B : Type 0} → Work W A → (A → Work W B) → Work W B
(m >>= f) w = let (r, w') = m w in elim r [ err e ↦ (err e, w') | ok a ↦ f a w' ]

abbrev pub return_ok : {W A : Type 0} → A → Work W A
return_ok a w = (ok a, w)

-- A call that only tells whether it succeeded.
abbrev pub require : {W : Type 0} → ProvisioningError → (W → Bool × W) → Work W (Unit {0})
require e call w =
    let (success, w') = call w in elim success [ true ↦ (ok tt, w') | false ↦ (err e, w') ]

-- A call that returns a value or fails.
abbrev pub obtain : {W A : Type 0} → ProvisioningError → (W → Option A × W) → Work W A
obtain e call w =
    let (answer, w') = call w in elim answer [ some a ↦ (ok a, w') | none ↦ (err e, w') ]

-- The wait for the child workflow: an execution that is already there is reused.
abbrev pub require_started : {W : Type 0} → (W → ChildStart × W) → Work W (Unit {0})
require_started call w =
    let (outcome, w') = call w in
    elim outcome [
      | started ↦ (ok tt, w')
      | already_started ↦ (ok tt, w')
      | start_failed ↦ (err start_accounting_failed, w')
    ]

-- The first input of a tenant's accounting workflow: nothing is carried over.
unfoldable pub accounting_input :
    TenantProvisioningInput → Map ResourceType ℕ → TenantAccountingInput
accounting_input input accounts = record {
  tenant_id = input.tenant_id;
  tenant_uuid = input.tenant_uuid;
  account_map = accounts;
  global_operator_ids = input.global_operator_ids;
  global_sink_ids = input.global_sink_ids;
  carry_processed_seqs = [];
  carry_pending_gauge_ids = [];
  carry_exceeded_resources = [];
  carry_last_ack = 0;
  carry_flush_seq_no = 0;
}

unfoldable pub provisioning_allocation :
    TenantProvisioningInput → Map ResourceType ℕ → Map ResourceType ℕ → SubmitAllocationInput
provisioning_allocation input accounts ids = record {
  tenant_uuid = input.tenant_uuid;
  tenant_quota_ids = accounts;
  global_operator_ids = input.global_operator_ids;
  credits = input.credits;
  period_start_ns = input.period_start_ns;
  transfer_ids = ids;
}

module _ (blake3 : List ℕ → List ℕ) where
  -- The loop over `input.Credits` that fills `allocTransferIDs`; `none` is the panic.
  unfoldable pub alloc_transfer_ids :
      ℕ → ℤ → Map ResourceType ℤ → Map ResourceType ℕ → Option (Map ResourceType ℕ)
  alloc_transfer_ids tenant ns [] ids = some ids
  alloc_transfer_ids tenant ns ((r, c) ∷ rest) ids = elim (ledger_id r) [
    | none ↦ none
    | some ledger ↦ alloc_transfer_ids tenant ns rest (
        insert r (uint128_to_bytes (derive_allocation_transfer_id blake3 tenant (to_u64 ns) ledger))
          ids)
  ]

  module _ {W : Type 0} (act : ProvisioningActivities W) where
    -- Step 5, and the result.
    unfoldable pub start_tenant :
        TenantProvisioningInput → Map ResourceType ℕ → Work W (Map ResourceType ℕ)
    start_tenant input accounts = do
      _ ← require_started (act.start_accounting (accounting_input input accounts))
      return_ok accounts

    -- From the transfer IDs of step 4 on.
    unfoldable pub load_wallet :
        TenantProvisioningInput
        → Map ResourceType ℕ
        → Map ResourceType ℕ
        → Work W (Map ResourceType ℕ)
    load_wallet input accounts ids = do
      _ ←
          require submit_allocations_failed
            (act.submit_allocation_transfers (provisioning_allocation input accounts ids))
      start_tenant input accounts

    -- From the accounts of step 2 on.
    unfoldable pub store_mapping :
        TenantProvisioningInput → Map ResourceType ℕ → Work W (Map ResourceType ℕ)
    store_mapping input accounts = do
      _ ← require insert_mapping_failed (act.insert_tb_account_mapping input.tenant_id accounts)
      ids ←
          obtain unknown_resource
            (λ w. (alloc_transfer_ids input.tenant_uuid input.period_start_ns input.credits [], w))
      load_wallet input accounts ids

    unfoldable pub tenant_provisioning : TenantProvisioningInput → Work W (Map ResourceType ℕ)
    tenant_provisioning input = do
      _ ←
          require insert_tenant_failed
            (act.insert_tenant input.tenant_id input.name input.billing_tier)
      accounts ← obtain create_accounts_failed (act.create_tenant_tb_accounts input.tenant_uuid)
      store_mapping input accounts

module _ {W : Type 0} (act : ProvisioningActivities W) where
  unfoldable pub register_cluster_workflow : RegisterClusterWorkflowInput → Work W (Unit {0})
  register_cluster_workflow input = do
    _ ← require insert_cluster_failed (act.insert_cluster input)
    require signal_failed
        (act.signal_register_cluster input.tenant_id (record { cluster_id = input.cluster_id }))
