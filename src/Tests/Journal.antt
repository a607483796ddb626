-- ===== src/Tests/Journal.antt =====
-- A ledger that remembers the IDs of the transfers that it has created.
use cloud_credit_system.Common.{
  ℕ, ◌≡◌, refl, Bool, true, false, Option, none, some, List, [], ◌∷◌, arith, nat_beq, nat_beq_iff,
  if◌then◌else◌, nat_key,
}
use cloud_credit_system.Domain.Resource.{ResourceType, cpu_hours, memory_gb_hours}
use cloud_credit_system.Ledger.TigerBeetle.{Transfer, CreateTransferResult, exists, TigerBeetle}
use cloud_credit_system.Ledger.TigerBeetle.Laws.{process, failures, TigerBeetleLaws}
use cloud_credit_system.Ledger.Transfers.{
  TransferResult, mark_failed, classify, classify_from, build, usage_transfer, submit_batch,
  submit_usage_batch,
}
use cloud_credit_system.Ledger.Transfers.Retried.{OnceLaws}
use cloud_credit_system.Ledger.Bytes.{le_bytes, le_value}
use cloud_credit_system.Ledger.Ids.{bytes_to_uint128, usage_preimage, derive_transfer_id}
use cloud_credit_system.Accounting.TbActivities.Build.{usage_of, usage_of_all, usage_transfers}
use cloud_credit_system.Accounting.TbActivities.ChargedOnce.{charged_once}
use cloud_credit_system.Tests.Inputs.{heartbeat_of, three}

abbrev knows : ℕ → List ℕ → Bool
knows id [] = false
knows id (i ∷ is) = if nat_beq i id then true else knows id is

abbrev journal_create : Transfer → List ℕ → Option CreateTransferResult × List ℕ
journal_create t ids = if knows t.id ids then (some exists, ids) else (none, t.id ∷ ids)

abbrev journal : TigerBeetle
journal = record {
  Store = List ℕ;
  create_accounts = λ accounts s. (some [], s);
  create_transfers = λ ts s. (some (failures journal_create 0 ts s), process journal_create ts s);
  lookup_accounts = λ ids s. some [];
}

abbrev journal_laws : TigerBeetleLaws journal
journal_laws = record { create = journal_create; answers = λ ts s. (refl, refl) }

journal_once : OnceLaws journal_create knows
journal_once = record {
  created = λ t s e. ground (arith, nat_beq_iff t.id t.id);
  existed = λ t s r e repeat. ground arith;
  stays_applied = λ id t s h. ground arith;
  changes_nothing = λ t s h. ground arith;
}

-- A stand-in for the hash: the bytes backwards, so that the first sixteen hold the ledger and the number.
abbrev onto : List ℕ → List ℕ → List ℕ
onto [] out = out
onto (b ∷ bs) out = onto bs (b ∷ out)

abbrev backwards : List ℕ → List ℕ
backwards bytes = onto bytes []

submission : Unit {0}
unfolding submit_usage_batch submit_batch build usage_transfer classify_from classify mark_failed
    usage_transfers usage_of_all usage_of derive_transfer_id bytes_to_uint128 usage_preimage
    le_bytes le_value
submission = tt

abbrev accepted : ResourceType → TransferResult
accepted r = record { resource = r; accepted = true; exceeds_credits = false; exists = false }

abbrev results : List TransferResult
results =
    accepted cpu_hours
    ∷ accepted memory_gb_hours
    ∷ accepted cpu_hours
    ∷ accepted memory_gb_hours
    ∷ accepted cpu_hours
    ∷ accepted memory_gb_hours
    ∷ []

-- Heartbeats 4 and 5 of cluster 5 and 9 of cluster 6 are submitted; later number 5 comes twice more.
charged_once_example :
    let later =
      process journal_create []
        (submit_usage_batch journal (usage_transfers backwards three three.heartbeats) []).1 in
    (submit_usage_batch journal
      (usage_transfers backwards three (heartbeat_of 5 5 ∷ heartbeat_of 5 5 ∷ []))
      later).1
    ≡ later
unfolding submission
charged_once_example =
    charged_once backwards journal journal_laws knows journal_once three three three.heartbeats
      (heartbeat_of 5 5 ∷ heartbeat_of 5 5 ∷ []) [] [] results refl
      (refl, (refl, (refl, (refl, (refl, (refl, tt))))))
      (record { quotas = refl; operators = refl; sinks = refl }) ((1, refl), ((1, refl), tt))
