-- ===== src/Gateway/Heartbeat/Handler.antt =====
-- queryWorkflowState and the unary Heartbeat RPC. `us` is the time that the signal took, in
-- microseconds.
use cloud_credit_system.Common.{
  ℕ, ◌+◌, ◌%◌, Bool, true, false, Option, none, some, List, [], nat_key, Result, ok, err,
}
use cloud_credit_system.Common.Int.{ℤ, u64_mod}
use cloud_credit_system.Common.Maps.{Map}
use cloud_credit_system.Domain.Resource.{ResourceType}
use cloud_credit_system.Gateway.Dedup.{MemDedup, is_duplicate}
use cloud_credit_system.Gateway.Latency.{LatencyRing, record_latency}
use cloud_credit_system.Gateway.Quotas.{
  Status, QuotaInfo, Command, heartbeat_quotas, overall_status, build_pending_commands,
}
use cloud_credit_system.Gateway.Heartbeat.Resolve.{
  Services, HandlerError, query_failed, HeartbeatRequest, Cache, resolve_tenant_id,
  signal_heartbeat,
}

-- The fields of HeartbeatHandler that a request changes.
pub record HandlerState : Type 0 where
  pub dedup : MemDedup
  pub cluster_to_tenant : Cache
  pub inbound_msgs : ℕ
  pub latency : LatencyRing

pub record HeartbeatResponse : Type 0 where
  pub ack_sequence : ℕ
  pub quotas : List QuotaInfo
  pub pending_commands : List Command
  pub status : Status

abbrev pub respond : ℕ → List QuotaInfo → HeartbeatResponse
respond ack quotas = record {
  ack_sequence = ack;
  quotas = quotas;
  pending_commands = build_pending_commands quotas;
  status = overall_status quotas;
}

-- A failed query of the exceeded resources leaves a nil map.
abbrev pub or_nil : Option (Map ResourceType Bool) → Map ResourceType Bool
or_nil none = []
or_nil (some m) = m

module _ (ratio_ge_80 : ℤ → ℤ → Bool) {W : Type 0} (sv : Services W) where
  -- The quotas, once the ack is known: none where the tenant ID does not parse or PG fails.
  unfoldable pub read_quotas : ℕ → W → List QuotaInfo
  read_quotas tenant w = elim (sv.parse_uuid tenant) [
    | none ↦ []
    | some uuid ↦ elim (sv.get_quota_snapshots uuid w) [
      | none ↦ []
      | some rows ↦ heartbeat_quotas ratio_ge_80 (or_nil (sv.query_exceeded tenant w)) rows
    ]
  ]

  unfoldable pub read_state :
      Result HandlerError ℕ × Cache × W → Result HandlerError (ℕ × List QuotaInfo) × Cache × W
  read_state (err e, cache, w) = (err e, cache, w)
  read_state (ok tenant, cache, w) = elim (sv.query_last_ack tenant w) [
    | none ↦ (err query_failed, cache, w)
    | some ack ↦ (ok (ack, read_quotas tenant w), cache, w)
  ]

  unfoldable pub query_workflow_state :
      ℕ → Cache → W → Result HandlerError (ℕ × List QuotaInfo) × Cache × W
  query_workflow_state cluster cache w = read_state (resolve_tenant_id sv cluster cache w)

  -- A failed query is only logged: the response then carries the zero ack and no quotas.
  abbrev pub response_of : Result HandlerError (ℕ × List QuotaInfo) → HeartbeatResponse
  response_of (ok (ack, quotas)) = respond ack quotas
  response_of (err e) = respond 0 []

  -- The end of Heartbeat, after the signal.
  unfoldable pub answer :
      ℕ → HandlerState → W → Result HandlerError HeartbeatResponse × HandlerState × W
  answer cluster h w =
      let (state, cache, w') = query_workflow_state cluster h.cluster_to_tenant w in
      (ok (response_of state), record h { cluster_to_tenant = cache }, w')

  -- What follows the signal: its error ends the call.
  unfoldable pub after_signal :
      ℕ
      → ℕ
      → HandlerState
      → Result HandlerError (Unit {0}) × Cache × W
      → Result HandlerError HeartbeatResponse × HandlerState × W
  after_signal us cluster h (err e, cache, w) =
      (err e, record h { cluster_to_tenant = cache; latency = record_latency us h.latency }, w)
  after_signal us cluster h (ok _, cache, w) =
      answer cluster (record h { cluster_to_tenant = cache; latency = record_latency us h.latency })
        w

  -- The unary RPC, at time `now`.
  unfoldable pub heartbeat :
      ℕ
      → ℕ
      → HeartbeatRequest
      → HandlerState
      → W
      → Result HandlerError HeartbeatResponse × HandlerState × W
  heartbeat us now req h0 w =
      let (dup, d) = is_duplicate req.cluster_id req.sequence_number now h0.dedup in
      let h = record h0 { dedup = d; inbound_msgs = (h0.inbound_msgs + 1) % u64_mod } in
      elim dup [
        | true ↦ answer req.cluster_id h w
        | false ↦ after_signal us req.cluster_id h (signal_heartbeat sv req h.cluster_to_tenant w)
      ]
