-- ===== src/Ledger/TigerBeetle.antt =====
-- The TigerBeetle client (a third-party package): its types as the code uses them, and its calls as
-- an interface over an abstract store.
pub mod Laws
use cloud_credit_system.Common.{ℕ, Bool, Option, List}

-- `types.Transfer`, with the two flags that the code sets.
pub record Transfer : Type 0 where
  pub id : ℕ
  pub pending_id : ℕ
  pub debit_account_id : ℕ
  pub credit_account_id : ℕ
  pub amount : ℕ
  pub ledger : ℕ
  pub code : ℕ
  pub pending : Bool
  pub void_pending_transfer : Bool
  pub user_data_128 : ℕ
  pub user_data_64 : ℕ

-- `types.CreateTransferResult` on failure: the values that the code tells apart, and any other.
pub data CreateTransferResult : Type 0 where
  exceeds_credits exists exists_with_different_debit_account_id : CreateTransferResult
  exists_with_different_credit_account_id exists_with_different_amount : CreateTransferResult
  pending_transfer_not_found pending_transfer_already_voided : CreateTransferResult
  pending_transfer_already_posted : CreateTransferResult
  other_result : ℕ → CreateTransferResult

-- `types.TransferEventResult`: one for each transfer that failed.
pub record TransferEventResult : Type 0 where
  pub index : ℕ
  pub result : CreateTransferResult

-- `types.Account`, with the two flags that the code sets.
pub record Account : Type 0 where
  pub id : ℕ
  pub ledger : ℕ
  pub code : ℕ
  pub debits_must_not_exceed_credits : Bool
  pub history : Bool
  pub user_data_128 : ℕ
  pub credits_posted : ℕ
  pub debits_posted : ℕ
  pub debits_pending : ℕ

pub data CreateAccountResult : Type 0 where
  account_ok account_exists : CreateAccountResult
  other_account_result : ℕ → CreateAccountResult

pub record AccountEventResult : Type 0 where
  pub index : ℕ
  pub result : CreateAccountResult

-- The calls; `none` is an error of the client. A failed call may or may not have reached the server.
pub record TigerBeetle : Type 1 where
  pub Store : Type 0
  pub create_accounts : List Account → Store → Option (List AccountEventResult) × Store
  pub create_transfers : List Transfer → Store → Option (List TransferEventResult) × Store
  pub lookup_accounts : List ℕ → Store → Option (List Account)
