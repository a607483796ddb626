-- ===== src/Accounting/TbActivities/ChargedOnce.antt =====
-- Invariant I-2 at the ledger: the usage of a heartbeat is charged once, in whatever batches it is submitted.
use cloud_credit_system.Common.{
  ℕ, zero, suc, ◌≡◌, refl, ap, Bool, some, List, [], ◌∷◌, ◌++◌, arith, All, All-append, All-map,
  get_elem?, nat_key, ok,
}
use cloud_credit_system.Common.Maps.{Map, lookup}
use cloud_credit_system.Domain.Resource.{ResourceType, resource_key, all_resources}
use cloud_credit_system.Ledger.TigerBeetle.{Transfer, TigerBeetle}
use cloud_credit_system.Ledger.TigerBeetle.Laws.{process, TigerBeetleLaws}
use cloud_credit_system.Ledger.Transfers.{TransferResult, UsageTransfer, submit_usage_batch}
use cloud_credit_system.Ledger.Transfers.Retried.{
  OnceLaws, AllAccepted, IsCharged, stays_through, submit_usage_batch-IsCharged,
  submit_usage_batch-again,
}
use cloud_credit_system.Accounting.Signals.{HeartbeatSignal, TbBatchInput}
use cloud_credit_system.Accounting.TbActivities.Build.{usage_of, usage_of_all, usage_transfers}

-- Each heartbeat of the second list is one of the first.
abbrev pub AllAmong : List HeartbeatSignal → List HeartbeatSignal → Type 0
AllAmong hbs again = All (λ (hb : HeartbeatSignal). (i : ℕ) × (get_elem? hbs i ≡ some hb)) again

-- The accounts of a tenant, by which two inputs of SubmitTBBatch build the same usage.
pub record SameAccounts (input input' : TbBatchInput) : Type 0 where
  pub quotas : input'.tenant_quota_ids ≡ input.tenant_quota_ids
  pub operators : input'.global_operator_ids ≡ input.global_operator_ids
  pub sinks : input'.global_sink_ids ≡ input.global_sink_ids

All-front {ℓ κ} :
    {T : Type ℓ} (P : T → Type κ) (front back : List T)
    → All P (front ++ back)
    → All P front × All P back
All-front P [] back h = (tt, h)
All-front P (t ∷ rest) back (first, h) = let (f, b) = All-front P rest back h in ((first, f), b)

usage_of-same :
    (blake3 : List ℕ → List ℕ) (input input' : TbBatchInput) (hb : HeartbeatSignal)
    (r : ResourceType)
    → SameAccounts input input'
    → usage_of blake3 input' hb r ≡ usage_of blake3 input hb r
unfolding usage_of
usage_of-same blake3 input input' hb r same =
    let accounts = λ (m : Map ResourceType ℕ). lookup r m in
    ground (arith, ap accounts same.quotas, ap accounts same.operators, ap accounts same.sinks)

module _ (blake3 : List ℕ → List ℕ) (P : UsageTransfer → Type 0) where
  usage_of_all-same :
      (input input' : TbBatchInput) (hb : HeartbeatSignal) (rs : List ResourceType)
      → SameAccounts input input'
      → usage_of_all blake3 input' hb rs ≡ usage_of_all blake3 input hb rs
  unfolding usage_of_all
  usage_of_all-same input input' hb [] same = refl
  usage_of_all-same input input' hb (r ∷ rs) same =
      rw (usage_of-same blake3 input input' hb r same, usage_of_all-same input input' hb rs same)
        refl

  -- What holds of all usage of a batch holds of the usage of each of its heartbeats.
  usage-All :
      (input : TbBatchInput) (hbs : List HeartbeatSignal) (i : ℕ) (hb : HeartbeatSignal)
      → get_elem? hbs i ≡ some hb
      → All P (usage_transfers blake3 input hbs)
      → All P (usage_of_all blake3 input hb all_resources)
  unfolding usage_transfers
  usage-All input [] i hb e h = absurd (cc e)
  usage-All input (x ∷ hbs) zero hb e h =
      let same : x ≡ hb = ground (arith, e) in
      rw (← same)
        (All-front P (usage_of_all blake3 input x all_resources) (usage_transfers blake3 input hbs)
          h).0
  usage-All input (x ∷ hbs) (suc i) hb e h =
      usage-All input hbs i hb e
        (All-front P (usage_of_all blake3 input x all_resources) (usage_transfers blake3 input hbs)
          h).1

  among-All :
      (input input' : TbBatchInput) (hbs again : List HeartbeatSignal)
      → SameAccounts input input'
      → AllAmong hbs again
      → All P (usage_transfers blake3 input hbs)
      → All P (usage_transfers blake3 input' again)
  unfolding usage_transfers
  among-All input input' hbs [] same a h = tt
  among-All input input' hbs (hb ∷ again) same (first, others) h =
      All-append P (usage_of_all blake3 input' hb all_resources)
        (usage_transfers blake3 input' again)
        (rw (usage_of_all-same input input' hb all_resources same)
          (usage-All input hbs first.0 hb first.1 h))
        (among-All input input' hbs again same others h)

-- SubmitUsageBatch has submitted the usage transfers of a batch, and all were accepted. Whatever transfers
-- TigerBeetle has processed since, a further SubmitUsageBatch of heartbeats of the first batch, in any
-- order and number and for the same accounts, changes nothing in TigerBeetle, whether the call is
-- answered or not. The gauge reservations are submitted apart, and are not part of this.
pub charged_once :
    (blake3 : List ℕ → List ℕ) (tb : TigerBeetle) (laws : TigerBeetleLaws tb)
    (applied : ℕ → tb.Store → Bool) (once : OnceLaws laws.create applied)
    (input input' : TbBatchInput) (hbs again : List HeartbeatSignal) (since : List Transfer)
    (s : tb.Store) (out : List TransferResult)
    → (submit_usage_batch tb (usage_transfers blake3 input hbs) s).0 ≡ ok out
    → AllAccepted out
    → SameAccounts input input'
    → AllAmong hbs again
    → let later =
        process laws.create since (submit_usage_batch tb (usage_transfers blake3 input hbs) s).1 in
      (submit_usage_batch tb (usage_transfers blake3 input' again) later).1 ≡ later
charged_once blake3 tb laws applied once input input' hbs again since s out returned accepted same
      among =
    let us = usage_transfers blake3 input hbs in
    let after = (submit_usage_batch tb us s).1 in
    let later = process laws.create since after in
    let charged = submit_usage_batch-IsCharged tb laws applied once us s out returned accepted in
    submit_usage_batch-again tb laws applied once (usage_transfers blake3 input' again) later (
      among-All blake3 (IsCharged applied later) input input' hbs again same among (
        All-map us
          (λ (u : UsageTransfer) (c : IsCharged applied after u).
            stays_through laws.create applied once u.transfer_id since after c)
          charged))
