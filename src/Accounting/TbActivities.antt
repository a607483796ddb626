-- ===== src/Accounting/TbActivities.antt =====
-- internal/accounting/activities_tb.go: one attempt of each TigerBeetle activity. `Build` and
-- `SubmitBatch` have SubmitTBBatch, `Allocations` has SubmitAllocationTransfers, `Balances` has CreateTenantTBAccounts and
-- LookupAccountBalances; the other children hold theorems.
pub mod Build
pub mod SubmitBatch
pub mod Built
pub mod ChargedOnce
pub mod Allocations
pub mod Balances
