-- ===== src/Accounting/Workflow/Credit.antt =====
-- The issue-credit update.
use cloud_credit_system.Common.{
  ℕ, ◌+◌, ◌%◌, ◌≡◌, ◌↔◌, refl, inl, inr, none, some, List, [], arith, Option-cases, nat_key,
  if◌then◌else◌, ok,
}
use cloud_credit_system.Common.Int.{pos, ◌≤ℤ◌, u64_mod}
use cloud_credit_system.Common.Maps.{lookup, lookup-erase}
use cloud_credit_system.Domain.Resource.{ResourceType, resource_key, resource_beq, ledger_id}
use cloud_credit_system.Accounting.Signals.{QuotaAdjustmentSignal}
use cloud_credit_system.Accounting.Activities.{Activities}
use cloud_credit_system.Accounting.Workflow.State.{TenantAccountingState, base_flush_interval}
use cloud_credit_system.Accounting.Workflow.Flush.{
  next_flush, allocation_input, flush_adjustment, finish_adjustment,
}
use cloud_credit_system.Accounting.Workflow.Loop.{UpdateRejected, validate, issue_credit}

-- The validator lets an update in exactly when its amount is positive and the tenant has an account
-- for its resource.
pub validate_iff :
    (sig : QuotaAdjustmentSignal) (s : TenantAccountingState)
    → (validate sig s ≡ none)
      ↔ ((pos 1 ≤ℤ sig.amount) × ((id : ℕ) × (lookup sig.resource_type s.account_map ≡ some id)))
unfolding validate
validate_iff sig s = elim (Option-cases (lookup sig.resource_type s.account_map)) [
  | inl e ↦ ground (arith, e)
  | inr (id, e) ↦ (λ h. (ground arith, (id, e)), λ h. ground arith)
]

module _ (blake3 : List ℕ → List ℕ) {W : Type 0} (act : Activities W) where
  -- An update that the validator refuses has no effect at all.
  pub issue_credit_rejected :
      (sig : QuotaAdjustmentSignal) (s : TenantAccountingState) (w : W) {why : UpdateRejected}
      → validate sig s ≡ some why
      → issue_credit blake3 act sig s w ≡ ((some why, ok []), s, w)
  unfolding issue_credit
  issue_credit_rejected sig s w e = ground arith

  -- An update that is let in, by how its allocation ends. Committed: the exceeded flag of its resource
  -- is cleared and those of the others stay. Failed: no flag changes. In both cases the counter has moved
  -- and the interval is the base interval.
  pub issue_credit_flags :
      (sig : QuotaAdjustmentSignal) (s : TenantAccountingState) (w : W) (ledger : ℕ)
      (r : ResourceType)
      → validate sig s ≡ none
      → ledger_id sig.resource_type ≡ some ledger
      → let committed =
          (act.submit_allocation_transfers
            (allocation_input blake3 (next_flush s) sig ledger)
            w).0 in
        let s' = (issue_credit blake3 act sig s w).1 in
        (lookup r s'.exceeded_resources ≡ (
          if committed
          then (if resource_beq sig.resource_type r then none else lookup r s.exceeded_resources)
          else lookup r s.exceeded_resources))
        × (s'.flush_seq_no ≡ (s.flush_seq_no + 1) % u64_mod)
        × (s'.current_flush_interval ≡ base_flush_interval)
        × (s'.cur_batch ≡ s.cur_batch)
  unfolding issue_credit flush_adjustment finish_adjustment
  issue_credit_flags sig s w ledger r v l =
      ground (arith, lookup-erase sig.resource_type r s.exceeded_resources)

  -- The code and the reason of the signal have no effect: an update behaves the same whatever they are.
  pub issue_credit_ignores_code :
      (sig : QuotaAdjustmentSignal) (s : TenantAccountingState) (w : W) (code reason : ℕ)
      → issue_credit blake3 act (record sig { code = code; reason = reason }) s w
        ≡ issue_credit blake3 act sig s w
  unfolding issue_credit flush_adjustment finish_adjustment validate allocation_input
  issue_credit_ignores_code sig s w code reason = refl
