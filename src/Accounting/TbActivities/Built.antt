-- ===== src/Accounting/TbActivities/Built.antt =====
-- What SubmitTBBatch builds: whose accounts its transfers move, under which IDs, and which heartbeat
-- stands for a gauge.
use cloud_credit_system.Common.{
  ℕ, suc, ◌≡◌, ◌≢◌, refl, sym, inl, inr, false, Option, none, some, List, [], ◌∷◌, arith, All,
  All-append, All-map, Option-cases, Bool-cases, nat_key, nat_beq, if◌then◌else◌, get_elem?,
}
use cloud_credit_system.Common.Int.{ℤ, pos, to_u64}
use cloud_credit_system.Common.Maps.{Map, lookup, insert, lookup-insert}
use cloud_credit_system.Domain.Resource.{
  ResourceType, resource_key, all_resources, ledger_id, is_gauge,
}
use cloud_credit_system.Ledger.Ids.{derive_transfer_id}
use cloud_credit_system.Ledger.Transfers.{UsageTransfer}
use cloud_credit_system.Accounting.Signals.{HeartbeatSignal, TbBatchInput, heartbeat_amount}
use cloud_credit_system.Accounting.Workflow.Seqs.{later, later_assoc, later-none, highest}
use cloud_credit_system.Accounting.TbActivities.Build.{
  is_zero, is_later, latest_from, latest_by_cluster, usage_of, usage_of_all, usage_transfers,
}

-- `t` charges heartbeat `hb`: it debits the tenant's wallet for a resource that is no gauge and of which
-- `hb` reports a delta that is not zero, credits the sink of that resource, and its ID is derived from
-- the cluster, the sequence number and the ledger.
pub record Charges (blake3 : List ℕ → List ℕ) (input : TbBatchInput) (hb : HeartbeatSignal)
    (t : UsageTransfer) : Type 0 where
  pub ledger : ℕ
  pub has_ledger : ledger_id t.resource ≡ some ledger
  pub cumulative : is_gauge t.resource ≡ false
  pub not_zero : heartbeat_amount hb t.resource ≢ pos 0
  pub amount : t.amount ≡ to_u64 (heartbeat_amount hb t.resource)
  pub id : t.transfer_id ≡ derive_transfer_id blake3 hb.cluster_uuid hb.sequence_number ledger
  pub debit : lookup t.resource input.tenant_quota_ids ≡ some t.tenant_quota_id
  pub credit : lookup t.resource input.global_sink_ids ≡ some t.sink_id

not_zero_of : (z : ℤ) → is_zero z ≡ false → z ≢ pos 0
not_zero_of z h e = ground arith

module _ (blake3 : List ℕ → List ℕ) (input : TbBatchInput) where
  usage_of-Charges :
      (hb : HeartbeatSignal) (r : ResourceType)
      → All (Charges blake3 input hb) (usage_of blake3 input hb r)
  unfolding usage_of
  usage_of-Charges hb r = elim (Bool-cases (is_gauge r)) [
    | inl g ↦ rw g tt
    | inr g ↦ elim (Bool-cases (is_zero (heartbeat_amount hb r))) [
      | inl z ↦ rw (g, z) tt
      | inr z ↦ elim (Option-cases (lookup r input.global_operator_ids)) [
        | inl o ↦ rw (g, z, o) tt
        | inr (operator, o) ↦ elim (Option-cases (lookup r input.tenant_quota_ids)) [
          | inl q ↦ rw (g, z, o, q) tt
          | inr (quota, q) ↦ elim (Option-cases (lookup r input.global_sink_ids)) [
            | inl k ↦ rw (g, z, o, q, k) tt
            | inr (sink, k) ↦ elim (Option-cases (ledger_id r)) [
              | inl l ↦ rw (g, z, o, q, k, l) tt
              | inr (ledger, l) ↦
                  rw (g, z, o, q, k, l)
                    (
                      record {
                        ledger = ledger;
                        has_ledger = l;
                        cumulative = g;
                        not_zero = not_zero_of _ z;
                        amount = refl;
                        id = refl;
                        debit = q;
                        credit = k;
                      },
                      tt,
                    )
            ]
          ]
        ]
      ]
    ]
  ]

  -- A transfer that charges a heartbeat of the batch.
  abbrev pub ChargesOne : List HeartbeatSignal → UsageTransfer → Type 0
  ChargesOne hbs t =
      (hb : HeartbeatSignal) × (i : ℕ) × (get_elem? hbs i ≡ some hb) × Charges blake3 input hb t

  usage_of_all-Charges :
      (hb : HeartbeatSignal) (rs : List ResourceType)
      → All (Charges blake3 input hb) (usage_of_all blake3 input hb rs)
  unfolding usage_of_all
  usage_of_all-Charges hb [] = tt
  usage_of_all-Charges hb (r ∷ rs) =
      All-append (Charges blake3 input hb) (usage_of blake3 input hb r)
        (usage_of_all blake3 input hb rs) (usage_of-Charges hb r) (usage_of_all-Charges hb rs)

  -- Every transfer that SubmitTBBatch builds charges one heartbeat of the batch: it moves the delta of
  -- a resource that is no gauge, not zero, from the tenant's wallet to the sink, under the ID that is
  -- derived from the heartbeat's cluster, its sequence number and the ledger.
  pub usage_transfers-ChargesOne :
      (hbs : List HeartbeatSignal) → All (ChargesOne hbs) (usage_transfers blake3 input hbs)
  unfolding usage_transfers
  usage_transfers-ChargesOne [] = tt
  usage_transfers-ChargesOne (hb ∷ hbs) =
      let first =
        All-map (usage_of_all blake3 input hb all_resources) (λ t c. (hb, 0, refl, c))
          (usage_of_all-Charges hb all_resources) in
      let others =
        All-map (usage_transfers blake3 input hbs) (λ t (h, i, at, c). (h, suc i, at, c))
          (usage_transfers-ChargesOne hbs) in
      All-append (ChargesOne (hb ∷ hbs)) (usage_of_all blake3 input hb all_resources)
        (usage_transfers blake3 input hbs) first others

abbrev pub number_of : Option HeartbeatSignal → Option ℕ
number_of none = none
number_of (some hb) = some hb.sequence_number

keep_later :
    (c : ℕ) (hb : HeartbeatSignal) (m : Map ℕ HeartbeatSignal)
    → number_of
        (lookup c (if is_later (lookup hb.cluster_id m) hb then insert hb.cluster_id hb m else m))
      ≡ (if nat_beq hb.cluster_id c
          then later (number_of (lookup c m)) (some hb.sequence_number)
          else number_of (lookup c m))
keep_later c hb m = elim (Option-cases (lookup hb.cluster_id m)) [
  | inl e ↦ ground (arith, e, lookup-insert hb.cluster_id c hb m)
  | inr (p, e) ↦ ground (arith, e, lookup-insert hb.cluster_id c hb m)
]

number-latest_from :
    (c : ℕ) (hbs : List HeartbeatSignal) (m : Map ℕ HeartbeatSignal)
    → number_of (lookup c (latest_from m hbs)) ≡ later (number_of (lookup c m)) (highest c hbs)
unfolding latest_from
number-latest_from c [] m = sym (later-none (number_of (lookup c m)))
number-latest_from c (hb ∷ hbs) m =
    rw (number-latest_from c hbs _, keep_later c hb m)
      (elim (Bool-cases (nat_beq hb.cluster_id c)) [
        | inl e ↦ rw e (later_assoc (number_of (lookup c m)) _ _)
        | inr e ↦ rw e
      ])

-- The heartbeat that stands for a cluster's gauges has the highest sequence number that the batch
-- holds of this cluster, in whatever order the heartbeats came; a cluster without heartbeats has none.
pub latest_is_highest :
    (c : ℕ) (hbs : List HeartbeatSignal)
    → number_of (lookup c (latest_by_cluster hbs)) ≡ highest c hbs
unfolding latest_by_cluster
latest_is_highest c hbs = number-latest_from c hbs []
