-- ===== src/Accounting/TbActivities/Allocations/Retry.antt =====
-- SubmitAllocationTransfers draws no random ID where every credit has an ID of its own.
use cloud_credit_system.Common.{
  ℕ, ◌+◌, ◌≡◌, ◌≢◌, refl, List, [], ◌∷◌, arith, All, All-append, nat_key,
}
use cloud_credit_system.Common.Int.{ℤ}
use cloud_credit_system.Common.Maps.{Map, lookup}
use cloud_credit_system.Domain.Resource.{ResourceType, resource_key}
use cloud_credit_system.Ledger.TigerBeetle.{TigerBeetle}
use cloud_credit_system.Ledger.Transfers.{
  AllocationTransfer, allocation_transfer, build_allocations, submit_allocations,
}
use cloud_credit_system.Accounting.Signals.{SubmitAllocationInput}
use cloud_credit_system.Accounting.TbActivities.Allocations.{
  allocation_id, allocation_of, allocations_of, submit_nonempty, submit_allocation_transfers,
}

abbrev pub HasId : AllocationTransfer → Type 0
HasId a = a.transfer_id ≢ 0

-- Every resource that is credited has an ID that is not zero.
abbrev pub HasIds : SubmitAllocationInput → Map ResourceType ℤ → Type 0
HasIds input credits =
    All (λ (p : ResourceType × ℤ). allocation_id (lookup p.0 input.transfer_ids) ≢ 0) credits

allocation_transfer_same :
    (x y : ℕ) (a : AllocationTransfer) → HasId a → allocation_transfer x a ≡ allocation_transfer y a
unfolding allocation_transfer
allocation_transfer_same x y a h = ground (arith, h)

build_same :
    (random random' : ℕ → ℕ) (i : ℕ) (items : List AllocationTransfer)
    → All HasId items
    → build_allocations random i items ≡ build_allocations random' i items
unfolding build_allocations
build_same random random' i [] h = refl
build_same random random' i (a ∷ items) h = ground (
  arith,
  allocation_transfer_same (random i) (random' i) a h.0,
  build_same random random' (i + 1) items h.1,
)

submit_same :
    (tb : TigerBeetle) (random random' : ℕ → ℕ) (items : List AllocationTransfer) (s : tb.Store)
    → All HasId items
    → submit_nonempty tb random items s ≡ submit_nonempty tb random' items s
unfolding submit_nonempty submit_allocations
submit_same tb random random' [] s h = refl
submit_same tb random random' (a ∷ items) s h =
    ground (arith, build_same random random' 0 (a ∷ items) h)

allocation_of-HasId :
    (input : SubmitAllocationInput) (r : ResourceType) (credits : ℤ)
    → allocation_id (lookup r input.transfer_ids) ≢ 0
    → All HasId (allocation_of input r credits)
unfolding allocation_of
allocation_of-HasId input r credits h = ground (arith, h)

allocations_of-HasId :
    (input : SubmitAllocationInput) (credits : Map ResourceType ℤ)
    → HasIds input credits
    → All HasId (allocations_of input credits)
unfolding allocations_of
allocations_of-HasId input [] h = tt
allocations_of-HasId input ((r, c) ∷ rest) h =
    All-append HasId (allocation_of input r c) (allocations_of input rest)
      (allocation_of-HasId input r c h.0) (allocations_of-HasId input rest h.1)

-- Where every credited resource has a transfer ID that is not zero, the activity does not depend on
-- the draws of RandomID: two attempts send TigerBeetle the same transfers, under the same IDs.
pub submit_allocation_transfers_repeats :
    (tb : TigerBeetle) (random random' : ℕ → ℕ) (input : SubmitAllocationInput) (s : tb.Store)
    → HasIds input input.credits
    → submit_allocation_transfers tb random input s ≡ submit_allocation_transfers tb random' input s
unfolding submit_allocation_transfers
submit_allocation_transfers_repeats tb random random' input s h =
    submit_same tb random random' (allocations_of input input.credits) s
      (allocations_of-HasId input input.credits h)
