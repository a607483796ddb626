-- ===== src/System/Registered.antt =====
-- RegisterTenant down to the rows of PostgreSQL: the handler, the workflow that it waits for, and the activities
-- of the workflow.
use cloud_credit_system.Common.{ℕ, ◌≡◌, Bool, Option, List}
use cloud_credit_system.Domain.Resource.{resource_key}
use cloud_credit_system.Ledger.TigerBeetle.{TigerBeetle}
use cloud_credit_system.Accounting.Signals.{RegisterClusterSignal}
use cloud_credit_system.Accounting.Workflow.State.{TenantAccountingInput}
use cloud_credit_system.Accounting.Provisioning.{
  TenantProvisioningInput, ChildStart, ProvisioningActivities,
}
use cloud_credit_system.Gateway.Provisioning.Register.{WorkflowClient, WorkflowId}
use cloud_credit_system.Gateway.Provisioning.Register.Waited.{connected}
use cloud_credit_system.System.World.{Occasion, World}
use cloud_credit_system.System.Provisioning.{system_provisioning}

-- Starting a workflow stores nothing in the databases of the program.
abbrev pub StoresNothing : {S : Type 0} → WorkflowClient (World S) → Type 0
StoresNothing {S} temporal =
    (id : WorkflowId) (input : TenantProvisioningInput) (w : World S)
    → (temporal.execute_provisioning id input w).1.db ≡ w.db

module _ (tb : TigerBeetle) (parse : ℕ → Option ℕ) (occasion : ℕ → Occasion)
    (start : TenantAccountingInput → World tb.Store → ChildStart)
    (signal : ℕ → RegisterClusterSignal → World tb.Store → Bool)
    (temporal : WorkflowClient (World tb.Store)) (blake3 : List ℕ → List ℕ) where
  abbrev provisioning : ProvisioningActivities (World tb.Store)
  provisioning = system_provisioning tb parse occasion start signal

  abbrev client : WorkflowClient (World tb.Store)
  client = connected blake3 provisioning temporal
