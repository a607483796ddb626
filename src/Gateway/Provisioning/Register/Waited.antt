-- ===== src/Gateway/Provisioning/Register/Waited.antt =====
-- RegisterTenant and RegisterCluster composed with the workflows that they wait for.
use cloud_credit_system.Common.{
  ℕ, ◌≡◌, ◌≢◌, ◌∙◌, Option, [], refl, ap, Bool, true, false, List, Result, ok, err,
}
use cloud_credit_system.Common.Int.{ℤ}
use cloud_credit_system.Common.Maps.{Map, lookup}
use cloud_credit_system.Domain.Resource.{ResourceType, resource_key}
use cloud_credit_system.Accounting.Signals.{SubmitAllocationInput}
use cloud_credit_system.Accounting.Workflow.State.{TenantAccountingInput}
use cloud_credit_system.Accounting.Provisioning.{
  ProvisioningActivities, ProvisioningError, tenant_provisioning, register_cluster_workflow,
  require, insert_cluster_failed, signal_failed, start_failed,
}
use cloud_credit_system.Accounting.Provisioning.Steps.{require_then}
use cloud_credit_system.Gateway.Provisioning.Register.{
  WorkflowClient, cluster_registration_workflow_id, RegisterClusterRequest, register_cluster_input,
  await_workflow, run_workflow, register_cluster,
}

abbrev pub completed : {A W : Type 0} → Result ProvisioningError A × W → Bool × W
completed (ok a, w) = (true, w)
completed (err e, w) = (false, w)

module _ {W : Type 0} (id : ℕ) (execute await : W → Bool × W) where
  -- An answer with an ID tells that the workflow was started and completed.
  pub run_workflow_completed :
      (w w' : W) (t : ℕ)
      → run_workflow id execute await w ≡ (ok t, w')
      → (t ≡ id) × (w1 : W) × (execute w ≡ (true, w1)) × (await w1 ≡ (true, w'))
  unfolding run_workflow await_workflow
  run_workflow_completed w w' t h = go (execute w) refl h
    where
      waited :
          (w1 : W) (q : Bool × W)
          → execute w ≡ (true, w1)
          → await w1 ≡ q
          → await_workflow id (λ x. q) w1 ≡ (ok t, w')
          → (t ≡ id) × (w1 : W) × (execute w ≡ (true, w1)) × (await w1 ≡ (true, w'))
      waited w1 (true, w2) e e' h' = (cc h', w1, e, e' ∙ ap (λ p. (true, p.1)) h')
      waited w1 (false, w2) e e' h' = absurd (cc h')

      go :
          (p : Bool × W)
          → execute w ≡ p
          → run_workflow id (λ x. p) await w ≡ (ok t, w')
          → (t ≡ id) × (w1 : W) × (execute w ≡ (true, w1)) × (await w1 ≡ (true, w'))
      go (true, w1) e h' = waited w1 (await w1) e refl h'
      go (false, w1) e h' = absurd (cc h')

pub completed_with :
    {A W : Type 0} (r : Result ProvisioningError A × W) (w' : W)
    → completed r ≡ (true, w')
    → (a : A) × (r ≡ (ok a, w'))
completed_with (ok a, w) w' h = (a, ap (λ p. (ok a, p.1)) h)
completed_with (err e, w) w' h = absurd (cc h)

require_ok :
    {W : Type 0} (e : ProvisioningError) (call : W → Bool × W) (w w' : W) (u : Unit {0})
    → require e call w ≡ (ok u, w')
    → call w ≡ (true, w')
require_ok {W} e call w w' u h = go (call w) refl h
  where
    go : (p : Bool × W) → call w ≡ p → require e (λ x. p) w ≡ (ok u, w') → call w ≡ (true, w')
    go (true, w1) q h' = q ∙ ap (λ p. (true, p.1)) h'
    go (false, w1) q h' = absurd (cc h')

module _ {W : Type 0} (act : ProvisioningActivities W) where
  -- An allocation was submitted and accepted: for these accounts of the tenant, with this credit for a
  -- resource.
  pub record Submits (uuid : ℕ) (accounts : Map ResourceType ℕ) (w w' : W) (q : ResourceType)
      (expected : Option ℤ) : Type 0 where
    pub allocation : SubmitAllocationInput
    pub submitted : act.submit_allocation_transfers allocation w ≡ (true, w')
    pub wallet_of : allocation.tenant_quota_ids ≡ accounts
    pub tenant : allocation.tenant_uuid ≡ uuid
    pub credit : lookup q allocation.credits ≡ expected

  -- The accounting workflow of the tenant was started, or was there already: for these accounts, with
  -- nothing processed yet.
  pub record Starts (id uuid : ℕ) (accounts operator_ids sink_ids : Map ResourceType ℕ) (w w' : W)
      : Type 0 where
    pub input : TenantAccountingInput
    pub runs : (act.start_accounting input w).0 ≢ start_failed
    pub last : (act.start_accounting input w).1 ≡ w'
    pub tenant : input.tenant_id ≡ id
    pub uuid_is : input.tenant_uuid ≡ uuid
    pub wallets : input.account_map ≡ accounts
    pub operators : input.global_operator_ids ≡ operator_ids
    pub sinks : input.global_sink_ids ≡ sink_ids
    pub fresh : (input.carry_processed_seqs ≡ []) × (input.carry_flush_seq_no ≡ 0)

module _ (blake3 : List ℕ → List ℕ) {W : Type 0} (act : ProvisioningActivities W) where
  -- The client of Temporal, with the waits running the workflows on the activities.
  unfoldable pub connected : WorkflowClient W → WorkflowClient W
  connected temporal = record temporal {
    await_provisioning = λ id input w. completed (tenant_provisioning blake3 act input w);
    await_registration = λ id input w. completed (register_cluster_workflow act input w);
  }

  module _ (temporal : WorkflowClient W) (w w' : W) (t : ℕ) where
    -- If RegisterCluster answers with an ID, it is the new one, the cluster's row was inserted, and then the
    -- accounting workflow of its tenant was told of it.
    pub registered_cluster :
        (r : RegisterClusterRequest) (id : ℕ)
        → register_cluster (connected temporal) r id w ≡ (ok t, w')
        → (t ≡ id)
          × (w1 : W) × (w2 : W) × (act.insert_cluster (register_cluster_input r id) w1 ≡ (true, w2))
          × (act.signal_register_cluster r.tenant_id (record { cluster_id = id }) w2 ≡ (true, w'))
    unfolding register_cluster connected register_cluster_workflow register_cluster_input
    registered_cluster r id h =
        let input = register_cluster_input r id in
        let signal = act.signal_register_cluster r.tenant_id (record { cluster_id = id }) in
        let (same, w1, _, waited) =
          run_workflow_completed id
            (temporal.execute_registration (cluster_registration_workflow_id id) input)
            (λ x. completed (register_cluster_workflow act input x)) w w' t h in
        let (done, returned) = completed_with (register_cluster_workflow act input w1) w' waited in
        let (w2, inserted, told) =
          require_then w1 w' done insert_cluster_failed (act.insert_cluster input)
            (λ _. require signal_failed signal) returned in
        (same, w1, w2, inserted, require_ok signal_failed signal w2 w' done told)
