-- ===== src/Tests/Ledger.antt =====
-- Transfer IDs, accounts and the ledger client.
use cloud_credit_system.Common.{
  ℕ, ◌+◌, Option, true, false, length, ◌≡◌, refl, inl, inr, none, some, List, [], ◌∷◌, arith, All,
  ok, Bool-cases, nat_beq, nat_key,
}
use cloud_credit_system.Domain.Resource.{resource_key, cpu_hours, memory_gb_hours, active_nodes}
use cloud_credit_system.Ledger.Ids.Injective.{usage, preimage-injective}
use cloud_credit_system.Ledger.Transfers.{
  submit_batch, TransferResult, classify, classify_from, mark_failed,
}
use cloud_credit_system.Ledger.Transfers.Outcome.{
  AllReported, Expected, failure_at, submit_batch-AllReported, submit_batch_returns,
}
use cloud_credit_system.Ledger.Gauge.{
  GaugePendingUpdate, GaugePendingResult, submit_gauge_pending_updates, send_gauge_transfers,
  gauge_transfers, update_transfers, void_part, create_part, gauge_results, apply_failures,
  apply_failure, assign_ids, assume_accepted, new_pending_ids,
}
use cloud_credit_system.Ledger.Gauge.Outcome.{Consistent, gauge_updates-Consistent}
use cloud_credit_system.Ledger.Accounts.{
  chosen_ids, chosen_accounts, tenant_account, create_tenant_quota_accounts, create_chosen,
  check_created,
}
use cloud_credit_system.Tests.Bank.{partial, partial_events}

preimage-injective_example : usage 5 4 1 ≡ usage (2 + 3) 4 1
preimage-injective_example =
    preimage-injective (usage 5 4 1) (usage (2 + 3) 4 1) (omega arith) (omega arith) refl

abbrev reports : List TransferResult
reports =
    record { resource = cpu_hours; accepted = true; exceeds_credits = false; exists = false }
    ∷ record {
      resource = memory_gb_hours;
      accepted = false;
      exceeds_credits = true;
      exists = false;
    }
    ∷ record { resource = cpu_hours; accepted = true; exceeds_credits = false; exists = true }
    ∷ []

-- The definitions that a batch computes with.
batch : Unit {0}
unfolding submit_batch classify_from classify mark_failed
batch = tt

submit_batch-AllReported_example :
    AllReported 0
      (λ i. failure_at i partial_events none)
      (cpu_hours ∷ memory_gb_hours ∷ cpu_hours ∷ [])
      reports
unfolding batch
submit_batch-AllReported_example =
    submit_batch-AllReported partial [] (cpu_hours ∷ memory_gb_hours ∷ cpu_hours ∷ []) 0
      partial_events reports refl refl

partial_events-Expected : (i : ℕ) → Expected (failure_at i partial_events none)
partial_events-Expected i = elim (Bool-cases (nat_beq 2 i)) [
  | inl e ↦ rw e (inl refl)
  | inr e ↦ rw e (elim (Bool-cases (nat_beq 1 i)) [ inl e' ↦ rw e' (inr refl) | inr e' ↦ rw e' tt ])
]

submit_batch_returns_example :
    (out : List TransferResult) × ((submit_batch partial []
        (cpu_hours ∷ memory_gb_hours ∷ cpu_hours ∷ [])
        0).0
      ≡ ok out)
submit_batch_returns_example =
    submit_batch_returns partial [] (cpu_hours ∷ memory_gb_hours ∷ cpu_hours ∷ []) 0 partial_events
      refl partial_events-Expected

-- The definitions that a creation computes with.
creation : Unit {0}
unfolding create_tenant_quota_accounts create_chosen chosen_ids chosen_accounts tenant_account
    check_created
creation = tt

-- Update 0 releases a reservation and asks for 9, which exceeds the credits; update 1 is a repeat.
abbrev update : Option ℕ → ℕ → GaugePendingUpdate
update old id = record {
  resource = active_nodes;
  tenant_quota_id = 13;
  sink_id = 33;
  old_pending_id = old;
  new_amount = 9;
  cluster_uuid = 5;
  heartbeat_ts_ns = 0;
  new_pending_id = id;
  void_transfer_id = 50;
}

abbrev gauge_reports : List GaugePendingResult
gauge_reports =
    record { new_pending_id = 0; accepted = false; exceeds_credits = true }
    ∷ record { new_pending_id = 41; accepted = true; exceeds_credits = false }
    ∷ []

-- The definitions that a gauge submission computes with.
gauges : Unit {0}
unfolding submit_gauge_pending_updates send_gauge_transfers gauge_transfers update_transfers
    void_part create_part gauge_results apply_failures apply_failure assign_ids assume_accepted
    new_pending_ids
gauges = tt

gauge_updates-Consistent_example : All Consistent gauge_reports × (length gauge_reports ≡ 2)
unfolding gauges
gauge_updates-Consistent_example =
    gauge_updates-Consistent partial (λ i. 90 + i) (update (some 8) 40 ∷ update none 41 ∷ []) 0
      gauge_reports refl
