-- ===== src/Accounting/TbActivities/Allocations.antt =====
-- SubmitAllocationTransfers.
pub mod Retry
use cloud_credit_system.Common.{
  ℕ, Bool, true, false, Option, none, some, List, [], ◌∷◌, ◌++◌, Result, ok, err,
}
use cloud_credit_system.Common.Int.{ℤ, to_u64}
use cloud_credit_system.Common.Maps.{Map, lookup}
use cloud_credit_system.Domain.Resource.{ResourceType, resource_key}
use cloud_credit_system.Domain.Codes.{code_quota_allocation}
use cloud_credit_system.Ledger.Ids.{uuid_to_uint128}
use cloud_credit_system.Ledger.TigerBeetle.{TigerBeetle}
use cloud_credit_system.Ledger.Transfers.{AllocationTransfer, LedgerError, submit_allocations}
use cloud_credit_system.Accounting.Signals.{SubmitAllocationInput}

-- A missing ID leaves the zero value, as a nil map does.
abbrev pub allocation_id : Option ℕ → ℕ
allocation_id none = 0
allocation_id (some id) = uuid_to_uint128 id

-- The body of the loop: nothing where an account is missing.
unfoldable pub allocation_of : SubmitAllocationInput → ResourceType → ℤ → List AllocationTransfer
allocation_of input r credits = elim (lookup r input.global_operator_ids) [
  | none ↦ []
  | some operator ↦ elim (lookup r input.tenant_quota_ids) [
    | none ↦ []
    | some quota ↦
        record {
          resource = r;
          operator_id = uuid_to_uint128 operator;
          tenant_quota_id = uuid_to_uint128 quota;
          amount = to_u64 credits;
          code = code_quota_allocation;
          tenant_uuid = input.tenant_uuid;
          period_start_ns = to_u64 input.period_start_ns;
          transfer_id = allocation_id (lookup r input.transfer_ids);
        }
        ∷ []
  ]
]

-- The loop over `input.Credits`.
unfoldable pub allocations_of : SubmitAllocationInput → Map ResourceType ℤ → List AllocationTransfer
allocations_of input [] = []
allocations_of input ((r, credits) ∷ rest) =
    allocation_of input r credits ++ allocations_of input rest

-- `random` numbers the draws of `RandomID()`.
module _ (tb : TigerBeetle) (random : ℕ → ℕ) where
  open tb use {Store}

  -- The end of the activity: an empty list submits nothing; of the results only the error is kept.
  unfoldable pub submit_nonempty :
      List AllocationTransfer → Store → Result LedgerError (Unit {0}) × Store
  submit_nonempty [] s = (ok tt, s)
  submit_nonempty (a ∷ rest) s =
      let (results, s') = submit_allocations tb random (a ∷ rest) s in
      (elim results [ ok rs ↦ ok tt | err e ↦ err e ], s')

  unfoldable pub submit_allocation_transfers :
      SubmitAllocationInput → Store → Result LedgerError (Unit {0}) × Store
  submit_allocation_transfers input s = submit_nonempty (allocations_of input input.credits) s
