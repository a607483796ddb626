-- ===== src/Ledger/Transfers.antt =====
-- internal/ledger/transfers.go: posted transfers, that is usage records and allocations.
pub mod Outcome
pub mod Retried
use cloud_credit_system.Common.{
  ℕ, ◌+◌, Bool, true, false, Option, none, some, List, [], ◌∷◌, ◌==◌, nat_key, if◌then◌else◌,
  Result, ok, err, ◌>>=◌, map,
}
use cloud_credit_system.Common.Maps.{Map, lookup, insert}
use cloud_credit_system.Domain.Resource.{ResourceType, ledger_id}
use cloud_credit_system.Domain.Codes.{code_usage_record}
use cloud_credit_system.Ledger.Ids.{uuid_to_uint128}
use cloud_credit_system.Ledger.TigerBeetle.{
  Transfer, CreateTransferResult, exceeds_credits, exists, exists_with_different_debit_account_id,
  exists_with_different_credit_account_id, exists_with_different_amount, TransferEventResult,
  TigerBeetle,
}

pub record TransferResult : Type 0 where
  pub resource : ResourceType
  pub accepted : Bool
  pub exceeds_credits : Bool
  pub exists : Bool

pub record UsageTransfer : Type 0 where
  pub resource : ResourceType
  pub operator_id : ℕ
  pub tenant_quota_id : ℕ
  pub sink_id : ℕ
  pub amount : ℕ
  pub transfer_id : ℕ
  pub cluster_uuid : ℕ
  pub heartbeat_ts_ns : ℕ

pub record AllocationTransfer : Type 0 where
  pub resource : ResourceType
  pub operator_id : ℕ
  pub tenant_quota_id : ℕ
  pub amount : ℕ
  pub code : ℕ
  pub tenant_uuid : ℕ
  pub period_start_ns : ℕ
  pub transfer_id : ℕ

-- The errors of this package; `unknown_resource` and `index_out_of_range` are panics.
pub data LedgerError : Type 0 where
  unknown_resource : LedgerError
  create_transfers_failed : LedgerError
  unexpected_result : ℕ → CreateTransferResult → LedgerError
  index_out_of_range : ℕ → LedgerError

-- `failed[r.Index] = r.Result` over the results.
unfoldable pub mark_failed :
    List TransferEventResult → Map ℕ CreateTransferResult → Map ℕ CreateTransferResult
mark_failed [] failed = failed
mark_failed (r ∷ rs) failed = mark_failed rs (insert r.index r.result failed)

-- The body of the loop over `results`, at index `i` with the failure recorded there.
unfoldable pub classify :
    ℕ → ResourceType → Option CreateTransferResult → Result LedgerError TransferResult
classify i r none =
    ok (record { resource = r; accepted = true; exceeds_credits = false; exists = false })
classify i r (some exceeds_credits) =
    ok (record { resource = r; accepted = false; exceeds_credits = true; exists = false })
classify i r (some exists) =
    ok (record { resource = r; accepted = true; exceeds_credits = false; exists = true })
classify i r (some exists_with_different_debit_account_id) =
    ok (record { resource = r; accepted = true; exceeds_credits = false; exists = true })
classify i r (some exists_with_different_credit_account_id) =
    ok (record { resource = r; accepted = true; exceeds_credits = false; exists = true })
classify i r (some exists_with_different_amount) =
    ok (record { resource = r; accepted = true; exceeds_credits = false; exists = true })
classify i r (some other) = err (unexpected_result i other)

-- The loop, from index `i`.
unfoldable pub classify_from :
    ℕ → Map ℕ CreateTransferResult → List ResourceType → Result LedgerError (List TransferResult)
classify_from i failed [] = ok []
classify_from i failed (r ∷ rs) = do
  first ← classify i r (lookup i failed)
  rest ← classify_from (i + 1) failed rs
  ok (first ∷ rest)

-- `t.Resource.LedgerID()` for each transfer: one unknown resource type panics.
unfoldable pub build {ℓ} : {A : Type ℓ} → (A → Option Transfer) → List A → Option (List Transfer)
build f [] = some []
build f (a ∷ rest) = elim (f a) [
  | none ↦ none
  | some t ↦ elim (build f rest) [ none ↦ none | some ts ↦ some (t ∷ ts) ]
]

-- The `types.Transfer` of `SubmitUsageBatch`: from the tenant's wallet to the sink.
unfoldable pub usage_transfer : UsageTransfer → Option Transfer
usage_transfer t = elim (ledger_id t.resource) [
  | none ↦ none
  | some ledger ↦ some (record {
    id = t.transfer_id;
    pending_id = 0;
    debit_account_id = t.tenant_quota_id;
    credit_account_id = t.sink_id;
    amount = t.amount;
    ledger = ledger;
    code = code_usage_record;
    pending = false;
    void_pending_transfer = false;
    user_data_128 = uuid_to_uint128 t.cluster_uuid;
    user_data_64 = t.heartbeat_ts_ns;
  })
]

-- The `types.Transfer` of `SubmitAllocations`: from the operator to the tenant's wallet. `random_id`
-- is what `RandomID()` gives in place of a zero ID.
unfoldable pub allocation_transfer : ℕ → AllocationTransfer → Option Transfer
allocation_transfer random_id a = elim (ledger_id a.resource) [
  | none ↦ none
  | some ledger ↦ some (record {
    id = if a.transfer_id == 0 then random_id else a.transfer_id;
    pending_id = 0;
    debit_account_id = a.operator_id;
    credit_account_id = a.tenant_quota_id;
    amount = a.amount;
    ledger = ledger;
    code = a.code;
    pending = false;
    void_pending_transfer = false;
    user_data_128 = uuid_to_uint128 a.tenant_uuid;
    user_data_64 = a.period_start_ns;
  })
]

-- `allocation_transfer` for each allocation; `random i` is the draw at index `i`.
unfoldable pub build_allocations : (ℕ → ℕ) → ℕ → List AllocationTransfer → Option (List Transfer)
build_allocations random i [] = some []
build_allocations random i (a ∷ rest) = elim (allocation_transfer (random i) a) [
  | none ↦ none
  | some t ↦ elim (build_allocations random (i + 1) rest) [ none ↦ none | some ts ↦ some (t ∷ ts) ]
]

module _ (tb : TigerBeetle) where
  open tb use {Store, create_transfers}

  unfoldable pub submit_batch :
      List Transfer → List ResourceType → Store → Result LedgerError (List TransferResult) × Store
  submit_batch transfers resources s =
      let (results, s') = create_transfers transfers s in
      (
        elim results [
          | none ↦ err create_transfers_failed
          | some rs ↦ classify_from 0 (mark_failed rs []) resources
        ],
        s',
      )

  unfoldable pub submit_usage_batch :
      List UsageTransfer → Store → Result LedgerError (List TransferResult) × Store
  submit_usage_batch transfers s = elim (build usage_transfer transfers) [
    | none ↦ (err unknown_resource, s)
    | some ts ↦ submit_batch ts (map (λ t. t.resource) transfers) s
  ]

  unfoldable pub submit_allocations :
      (ℕ → ℕ) → List AllocationTransfer → Store → Result LedgerError (List TransferResult) × Store
  submit_allocations random allocations s = elim (build_allocations random 0 allocations) [
    | none ↦ (err unknown_resource, s)
    | some ts ↦ submit_batch ts (map (λ a. a.resource) allocations) s
  ]
