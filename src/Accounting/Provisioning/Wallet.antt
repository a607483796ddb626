-- ===== src/Accounting/Provisioning/Wallet.antt =====
-- The initial allocation under retries: the IDs of TenantProvisioningWorkflow, as
-- SubmitAllocationTransfers uses them.
use cloud_credit_system.Common.{ℕ, ◌≡◌, ◌≢◌, ap, sym, ◌∙◌, some, List, [], All-map}
use cloud_credit_system.Common.Maps.{Map}
use cloud_credit_system.Domain.Resource.{ResourceType, resource_key}
use cloud_credit_system.Ledger.Ids.{uuid_to_uint128}
use cloud_credit_system.Ledger.TigerBeetle.{TigerBeetle}
use cloud_credit_system.Accounting.TbActivities.Allocations.{
  allocation_id, submit_allocation_transfers,
}
use cloud_credit_system.Accounting.TbActivities.Allocations.Retry.{
  submit_allocation_transfers_repeats,
}
use cloud_credit_system.Accounting.Provisioning.{
  TenantProvisioningInput, provisioning_allocation, alloc_transfer_ids,
}
use cloud_credit_system.Accounting.Provisioning.Steps.{credit_id, credits-HasCreditId}

module _ (blake3 : List ℕ → List ℕ) (tb : TigerBeetle) (random random' : ℕ → ℕ) where
  -- Where the hash never gives the zero ID, two attempts at the initial allocation of a provisioning
  -- do the same, whatever RandomID draws in each.
  pub wallet_loaded_alike :
      (input : TenantProvisioningInput) (accounts ids : Map ResourceType ℕ) (s : tb.Store)
      → ((ledger : ℕ)
          → uuid_to_uint128 (credit_id blake3 input.tenant_uuid input.period_start_ns ledger) ≢ 0)
      → alloc_transfer_ids blake3 input.tenant_uuid input.period_start_ns input.credits []
        ≡ some ids
      → submit_allocation_transfers tb random (provisioning_allocation input accounts ids) s
        ≡ submit_allocation_transfers tb random' (provisioning_allocation input accounts ids) s
  unfolding provisioning_allocation
  wallet_loaded_alike input accounts ids s not_zero derived =
      submit_allocation_transfers_repeats tb random random'
        (provisioning_allocation input accounts ids) s
        (All-map input.credits
          (λ p (ledger, _, found) zero_id. not_zero ledger (sym (ap allocation_id found) ∙ zero_id))
          (credits-HasCreditId blake3 input.tenant_uuid input.period_start_ns input.credits [] ids
            derived))
