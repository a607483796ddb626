-- ===== src/Accounting/TbActivities/SubmitBatch.antt =====
-- SubmitTBBatch.
use cloud_credit_system.Common.{ℕ, List, [], ◌∷◌, nat_key, Result, ok, err, map, false}
use cloud_credit_system.Common.Maps.{Map, insert}
use cloud_credit_system.Domain.Resource.{ResourceType, resource_key}
use cloud_credit_system.Ledger.Ids.{uint128_to_bytes}
use cloud_credit_system.Ledger.TigerBeetle.{TigerBeetle}
use cloud_credit_system.Ledger.Transfers.{
  LedgerError, TransferResult, UsageTransfer, submit_usage_batch,
}
use cloud_credit_system.Ledger.Gauge.{
  GaugePendingUpdate, GaugePendingResult, submit_gauge_pending_updates,
}
use cloud_credit_system.Accounting.Signals.{
  HeartbeatSignal, GaugeMap, TbBatchInput, TbBatchResult, ResourceBatchResult,
}
use cloud_credit_system.Accounting.Workflow.State.{inner}
use cloud_credit_system.Accounting.TbActivities.Build.{
  latest_by_cluster, usage_transfers, gauge_updates,
}

abbrev pub PerResource : Type 0
PerResource = Map ResourceType ResourceBatchResult

-- `result.PerResource[transferResources[i]] = …` over the results.
unfoldable pub record_usage : List ResourceType → List TransferResult → PerResource → PerResource
record_usage (r ∷ rs) (res ∷ results) m = record_usage rs results (
    insert r
      (record {
        accepted = res.accepted;
        exceeds_credits = res.exceeds_credits;
        exists = res.exists;
      })
      m)
record_usage _ _ m = m

-- `result.GaugeUpdates[k.clusterID][k.resource] = id`, where a missing inner map is made.
abbrev pub set_update : ℕ × ResourceType → ℕ → GaugeMap → GaugeMap
set_update (c, r) id m = insert c (insert r id (inner c m)) m

-- The loop over `gaugeResults`.
unfoldable pub record_gauges :
    List (ℕ × ResourceType) → List GaugePendingResult → TbBatchResult → TbBatchResult
record_gauges (k ∷ ks) (gr ∷ results) b = record_gauges ks results (record {
  per_resource =
      insert k.1
        (record { accepted = gr.accepted; exceeds_credits = gr.exceeds_credits; exists = false })
        b.per_resource;
  gauge_updates = set_update k (uint128_to_bytes gr.new_pending_id) b.gauge_updates;
})
record_gauges _ _ b = b

-- `random` numbers the draws of `RandomID()` in one attempt; `range` is the order in which the
-- runtime ranges over a map.
module _ (blake3 : List ℕ → List ℕ) (tb : TigerBeetle) (random : ℕ → ℕ)
    (range : Map ℕ HeartbeatSignal → Map ℕ HeartbeatSignal) where
  open tb use {Store}

  -- The first half, on the transfers that were built.
  unfoldable pub submit_usage : List UsageTransfer → Store → Result LedgerError PerResource × Store
  submit_usage [] s = (ok [], s)
  submit_usage (t ∷ ts) s =
      let (results, s') = submit_usage_batch tb (t ∷ ts) s in
      (
        elim results [
          | err e ↦ err e
          | ok rs ↦ ok (record_usage (map (λ u. u.resource) (t ∷ ts)) rs [])
        ],
        s',
      )

  -- The second half, on the gauge updates that were built.
  unfoldable pub submit_gauges :
      List (GaugePendingUpdate × (ℕ × ResourceType))
      → PerResource
      → Store
      → Result LedgerError TbBatchResult × Store
  submit_gauges [] m s = (ok (record { per_resource = m; gauge_updates = [] }), s)
  submit_gauges (u ∷ us) m s =
      let (results, s') = submit_gauge_pending_updates tb random (map (λ p. p.0) (u ∷ us)) s in
      (
        elim results [
          | err e ↦ err e
          | ok rs ↦ ok (
              record_gauges (map (λ p. p.1) (u ∷ us)) rs
                (record { per_resource = m; gauge_updates = [] }))
        ],
        s',
      )

  -- What follows the first half: its error ends the attempt.
  unfoldable pub submit_rest :
      TbBatchInput
      → Result LedgerError PerResource × Store
      → Result LedgerError TbBatchResult × Store
  submit_rest input (err e, s) = (err e, s)
  submit_rest input (ok m, s) =
      submit_gauges (gauge_updates blake3 input (range (latest_by_cluster input.heartbeats))) m s

  unfoldable pub submit_tb_batch : TbBatchInput → Store → Result LedgerError TbBatchResult × Store
  submit_tb_batch input s =
      submit_rest input (submit_usage (usage_transfers blake3 input input.heartbeats) s)
