-- ===== src/Accounting/TbActivities/Build.antt =====
-- The transfers and gauge updates that SubmitTBBatch builds from its input.
use cloud_credit_system.Common.{
  ℕ, zero, suc, Bool, true, false, Option, none, some, List, [], ◌∷◌, ◌++◌, ltb, nat_key,
  if◌then◌else◌,
}
use cloud_credit_system.Common.Int.{ℤ, pos, negsuc, to_u64}
use cloud_credit_system.Common.Maps.{Map, lookup, insert}
use cloud_credit_system.Domain.Resource.{
  ResourceType, resource_key, all_resources, ledger_id, is_gauge,
}
use cloud_credit_system.Ledger.Ids.{derive_transfer_id, uuid_to_uint128}
use cloud_credit_system.Ledger.Transfers.{UsageTransfer}
use cloud_credit_system.Ledger.Gauge.{GaugePendingUpdate}
use cloud_credit_system.Accounting.Signals.{
  HeartbeatSignal, GaugeMap, TbBatchInput, heartbeat_amount,
}

-- `amount == 0`
abbrev pub is_zero : ℤ → Bool
is_zero (pos n) = elim n [ zero ↦ true | suc m ↦ false ]
is_zero (negsuc n) = false

-- `latestByCluster`: the heartbeat with the highest sequence number for each cluster.
abbrev pub is_later : Option HeartbeatSignal → HeartbeatSignal → Bool
is_later none hb = true
is_later (some prev) hb = ltb prev.sequence_number hb.sequence_number

unfoldable pub latest_from : Map ℕ HeartbeatSignal → List HeartbeatSignal → Map ℕ HeartbeatSignal
latest_from m [] = m
latest_from m (hb ∷ hbs) =
    latest_from (if is_later (lookup hb.cluster_id m) hb then insert hb.cluster_id hb m else m) hbs

unfoldable pub latest_by_cluster : List HeartbeatSignal → Map ℕ HeartbeatSignal
latest_by_cluster hbs = latest_from [] hbs

-- `m[clusterID][string(r)]`, where either level may be missing.
abbrev pub lookup₂ : ℕ → ResourceType → GaugeMap → Option ℕ
lookup₂ c r m = elim (lookup c m) [ none ↦ none | some inner ↦ lookup r inner ]

-- A missing ID leaves the zero value.
abbrev pub id_or_zero : Option ℕ → ℕ
id_or_zero none = 0
id_or_zero (some id) = uuid_to_uint128 id

module _ (blake3 : List ℕ → List ℕ) (input : TbBatchInput) where
  -- The transfer of heartbeat `hb` for resource `r`, given the three accounts and the ledger.
  abbrev usage_record : HeartbeatSignal → ResourceType → ℕ → ℕ → ℕ → ℕ → UsageTransfer
  usage_record hb r operator quota sink ledger = record {
    resource = r;
    operator_id = uuid_to_uint128 operator;
    tenant_quota_id = uuid_to_uint128 quota;
    sink_id = uuid_to_uint128 sink;
    amount = to_u64 (heartbeat_amount hb r);
    transfer_id = derive_transfer_id blake3 hb.cluster_uuid hb.sequence_number ledger;
    cluster_uuid = hb.cluster_uuid;
    heartbeat_ts_ns = to_u64 hb.heartbeat_timestamp_ns;
  }

  -- The body of the inner loop: nothing for a gauge, an amount of zero or a missing account. On the
  -- resources of `AllResources` `LedgerID` does not panic.
  unfoldable pub usage_of : HeartbeatSignal → ResourceType → List UsageTransfer
  usage_of hb r =
      if is_gauge r
      then []
      else if is_zero (heartbeat_amount hb r)
      then []
      else elim (lookup r input.global_operator_ids) [
        | none ↦ []
        | some operator ↦ elim (lookup r input.tenant_quota_ids) [
          | none ↦ []
          | some quota ↦ elim (lookup r input.global_sink_ids) [
            | none ↦ []
            | some sink ↦ elim (ledger_id r) [
              | none ↦ []
              | some ledger ↦ usage_record hb r operator quota sink ledger ∷ []
            ]
          ]
        ]
      ]

  unfoldable pub usage_of_all : HeartbeatSignal → List ResourceType → List UsageTransfer
  usage_of_all hb [] = []
  usage_of_all hb (r ∷ rs) = usage_of hb r ++ usage_of_all hb rs

  -- The outer loop: `transfers`. `transferResources[i]` is the resource of `transfers[i]`.
  unfoldable pub usage_transfers : List HeartbeatSignal → List UsageTransfer
  usage_transfers [] = []
  usage_transfers (hb ∷ hbs) = usage_of_all hb all_resources ++ usage_transfers hbs

  -- The update of one cluster for resource `r`, with its `gaugeKey`.
  unfoldable pub gauge_update_of :
      ℕ → HeartbeatSignal → ResourceType → List (GaugePendingUpdate × (ℕ × ResourceType))
  gauge_update_of cluster hb r =
      if is_gauge r
      then elim (lookup r input.tenant_quota_ids) [
        | none ↦ []
        | some quota ↦ elim (lookup r input.global_sink_ids) [
          | none ↦ []
          | some sink ↦
              (
                record {
                  resource = r;
                  tenant_quota_id = uuid_to_uint128 quota;
                  sink_id = uuid_to_uint128 sink;
                  old_pending_id = lookup₂ cluster r input.pending_gauge_ids;
                  new_amount = to_u64 (heartbeat_amount hb r);
                  cluster_uuid = hb.cluster_uuid;
                  heartbeat_ts_ns = to_u64 hb.heartbeat_timestamp_ns;
                  new_pending_id = id_or_zero (lookup₂ cluster r input.new_gauge_pending_ids);
                  void_transfer_id = id_or_zero (lookup₂ cluster r input.gauge_void_ids);
                },
                (cluster, r),
              )
              ∷ []
        ]
      ]
      else []

  unfoldable pub gauge_updates_of :
      ℕ → HeartbeatSignal → List ResourceType → List (GaugePendingUpdate × (ℕ × ResourceType))
  gauge_updates_of cluster hb [] = []
  gauge_updates_of cluster hb (r ∷ rs) =
      gauge_update_of cluster hb r ++ gauge_updates_of cluster hb rs

  -- The loop over `latestByCluster`, in the order in which the map is ranged over.
  unfoldable pub gauge_updates :
      Map ℕ HeartbeatSignal → List (GaugePendingUpdate × (ℕ × ResourceType))
  gauge_updates [] = []
  gauge_updates ((cluster, hb) ∷ rest) =
      gauge_updates_of cluster hb all_resources ++ gauge_updates rest
