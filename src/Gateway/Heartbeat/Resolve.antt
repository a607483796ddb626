-- ===== src/Gateway/Heartbeat/Resolve.antt =====
-- resolveTenantID, uuidToBytes and signalHeartbeat, over the services that the handler calls.
use cloud_credit_system.Common.{
  ℕ, zero, suc, Bool, true, false, Option, none, some, List, nat_key, Result, ok, err,
}
use cloud_credit_system.Common.Int.{ℤ, pos}
use cloud_credit_system.Common.Maps.{Map, lookup, insert}
use cloud_credit_system.Domain.Resource.{ResourceType}
use cloud_credit_system.Accounting.Signals.{HeartbeatSignal}
use cloud_credit_system.Gateway.Quotas.{SnapshotRow}

-- The answer of the query GetCluster: a tenant, no such row, or another error.
pub data ClusterAnswer : Type 0 where
  found : ℕ → ClusterAnswer
  no_rows failed : ClusterAnswer

-- Temporal, PostgreSQL, the UUID and hex parsers, and the request's context, on a world `W`.
pub record Services (W : Type 0) : Type 0 where
  pub parse_uuid : ℕ → Option ℕ
  pub decode_hex : ℕ → ℕ
  pub get_cluster : ℕ → W → ClusterAnswer × W
  -- The wait between two attempts: false when the request is cancelled meanwhile.
  pub wait : W → Bool × W
  pub signal_workflow : ℕ → HeartbeatSignal → W → Bool × W
  pub query_last_ack : ℕ → W → Option ℕ
  pub query_exceeded : ℕ → W → Option (Map ResourceType Bool)
  pub get_quota_snapshots : ℕ → W → Option (List SnapshotRow)

pub data HandlerError : Type 0 where
  bad_uuid cancelled cluster_not_found cluster_lookup_failed signal_failed : HandlerError
  query_failed : HandlerError

pub record HeartbeatRequest : Type 0 where
  pub cluster_id : ℕ
  pub sequence_number : ℕ
  pub cpu_milliseconds_delta : ℤ
  pub memory_mb_seconds_delta : ℤ
  pub active_nodes : ℤ
  pub timestamp : Option ℤ

abbrev pub max_attempts : ℕ
max_attempts = 3

-- `clusterToTenant`
abbrev pub Cache : Type 0
Cache = Map ℕ ℕ

module _ {W : Type 0} (sv : Services W) where
  -- `uuidToBytes`
  abbrev pub uuid_to_bytes : ℕ → ℕ
  uuid_to_bytes id = elim (sv.parse_uuid id) [ none ↦ sv.decode_hex id | some u ↦ u ]

  -- The `select` at the top of an attempt.
  abbrev pub pause : Bool → W → Bool × W
  pause true w = (true, w)
  pause false w = sv.wait w

  -- The attempts of resolveTenantID that are left; there is a wait before each but the first.
  unfoldable pub attempts : ℕ → Bool → ℕ → W → Result HandlerError ℕ × W
  attempts zero first uuid w = (err cluster_lookup_failed, w)
  attempts (suc n) first uuid w =
      let (go, w1) = pause first w in
      elim go [
        | false ↦ (err cancelled, w1)
        | true ↦
            let (answer, w2) = sv.get_cluster uuid w1 in
            elim answer [
              | found tenant ↦ (ok tenant, w2)
              | no_rows ↦ (err cluster_not_found, w2)
              | failed ↦ attempts n false uuid w2
            ]
      ]

  -- What resolveTenantID keeps of a successful lookup.
  abbrev pub remember : ℕ → Cache → Result HandlerError ℕ × W → Result HandlerError ℕ × Cache × W
  remember cluster cache (ok tenant, w) = (ok tenant, insert cluster tenant cache, w)
  remember cluster cache (err e, w) = (err e, cache, w)

  unfoldable pub resolve_tenant_id : ℕ → Cache → W → Result HandlerError ℕ × Cache × W
  resolve_tenant_id cluster cache w = elim (lookup cluster cache) [
    | some tenant ↦ (ok tenant, cache, w)
    | none ↦ elim (sv.parse_uuid cluster) [
      | none ↦ (err bad_uuid, cache, w)
      | some uuid ↦ remember cluster cache (attempts max_attempts true uuid w)
    ]
  ]

  -- The signal that signalHeartbeat builds from a request.
  unfoldable pub signal_of : HeartbeatRequest → HeartbeatSignal
  signal_of req = record {
    cluster_id = req.cluster_id;
    cluster_uuid = uuid_to_bytes req.cluster_id;
    sequence_number = req.sequence_number;
    cpu_milliseconds_delta = req.cpu_milliseconds_delta;
    memory_mb_seconds_delta = req.memory_mb_seconds_delta;
    active_nodes = req.active_nodes;
    heartbeat_timestamp_ns = elim req.timestamp [ none ↦ pos 0 | some ns ↦ ns ];
  }

  -- `h.temporal.SignalWorkflow` once the tenant is known.
  unfoldable pub send_signal :
      HeartbeatRequest
      → Result HandlerError ℕ × Cache × W
      → Result HandlerError (Unit {0}) × Cache × W
  send_signal req (err e, cache, w) = (err e, cache, w)
  send_signal req (ok tenant, cache, w) =
      let (sent, w') = sv.signal_workflow tenant (signal_of req) w in
      elim sent [ true ↦ (ok tt, cache, w') | false ↦ (err signal_failed, cache, w') ]

  unfoldable pub signal_heartbeat :
      HeartbeatRequest → Cache → W → Result HandlerError (Unit {0}) × Cache × W
  signal_heartbeat req cache w = send_signal req (resolve_tenant_id req.cluster_id cache w)
