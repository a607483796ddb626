-- ===== src/Tests/Gateway.antt =====
-- The gateway.
use cloud_credit_system.Common.{
  arith, ℕ, ◌+◌, ◌*◌, ◌%◌, ◌≤◌, ◌≡◌, ◌↔◌, refl, Bool, true, false, not, none, some, List, [], ◌∷◌,
  nat_key, ltb,
}
use cloud_credit_system.Common.Int.{◌-ℤ◌, ℤ, pos, u64_mod}
use cloud_credit_system.Domain.Resource.{cpu_hours, resource_key}
use cloud_credit_system.Accounting.Signals.{QuotaSnapshotData}
use cloud_credit_system.Gateway.Dedup.{MemDedup, Check, is_duplicate, check_all, new_mem_dedup}
use cloud_credit_system.Gateway.Dedup.Laws.{highest_checked, is_duplicate_iff}
use cloud_credit_system.Gateway.Quotas.{quota_exceeded, heartbeat_quota, listed_quota, issued_quota}
use cloud_credit_system.Gateway.Quotas.Laws.{row_of, quotas_agree}
use cloud_credit_system.Gateway.Heartbeat.Resolve.{
  Services, found, signal_failed, HeartbeatRequest, signal_heartbeat, send_signal,
  resolve_tenant_id, attempts,
}
use cloud_credit_system.Gateway.Heartbeat.Handler.{HandlerState, heartbeat, answer, after_signal}
use cloud_credit_system.Gateway.Latency.{new_ring}
use cloud_credit_system.Gateway.Heartbeat.Lost.{retry_not_signalled}

-- `used * 10 >= total * 8`, for a limit that is positive.
abbrev pub most : ℤ → ℤ → Bool
most (pos u) (pos t) = not (ltb (u * 10) (t * 8))
most u t = false

abbrev pub balance : QuotaSnapshotData
balance = record { credits_total = pos 100; debits_posted = pos 80; debits_pending = pos 25 }

abbrev checks : List Check
checks = record { cluster = 5; seq = 3; now = 10 } ∷ record { cluster = 6; seq = 9; now = 20 } ∷ []

abbrev seen : MemDedup
seen = record {
  entries = (5, record { seq = 3; seen_at = 10 }) ∷ (6, record { seq = 9; seen_at = 20 }) ∷ [];
  ttl = 50;
}

-- Every service answers, but no signal is delivered; the world counts the calls.
abbrev pub unreachable : Services ℕ
unreachable = record {
  parse_uuid = λ id. some id;
  decode_hex = λ id. 0;
  get_cluster = λ id w. (found 1, w + 1);
  wait = λ w. (true, w);
  signal_workflow = λ t s w. (false, w + 1);
  query_last_ack = λ t w. some 4;
  query_exceeded = λ t w. none;
  get_quota_snapshots = λ t w. some (row_of cpu_hours balance ∷ []);
}

abbrev pub request : HeartbeatRequest
request = record {
  cluster_id = 5;
  sequence_number = 7;
  cpu_milliseconds_delta = pos 100;
  memory_mb_seconds_delta = pos 50;
  active_nodes = pos 3;
  timestamp = none;
}

abbrev handler : HandlerState
handler = record { dedup = seen; cluster_to_tenant = []; inbound_msgs = 0; latency = new_ring }

is_duplicate_iff_example :
    ((is_duplicate 5 3 99 (check_all checks (new_mem_dedup 50))).0 ≡ true)
    ↔ ((p : ℕ) × (highest_checked 5 checks ≡ some p) × (3 ≤ p))
is_duplicate_iff_example = is_duplicate_iff 5 3 99 50 checks

quotas_agree_example :
    (issued_quota most cpu_hours balance ≡ listed_quota most (row_of cpu_hours balance))
    × (heartbeat_quota most ((cpu_hours, true) ∷ []) (row_of cpu_hours balance)
        ≡ record (listed_quota most (row_of cpu_hours balance)) { status = quota_exceeded })
unfolding ◌-ℤ◌
quotas_agree_example =
    quotas_agree most cpu_hours balance ((cpu_hours, true) ∷ []) (omega arith) (omega arith)

-- The definitions that a request computes with.
rpc : Unit {0}
unfolding heartbeat is_duplicate after_signal signal_heartbeat send_signal resolve_tenant_id
    attempts
rpc = tt

retry_not_signalled_example :
    let (_, h1, w1) = heartbeat most unreachable 250 30 request handler 0 in
    heartbeat most unreachable 240 40 request h1 w1
    ≡ answer most unreachable 5 (record h1 { inbound_msgs = (h1.inbound_msgs + 1) % u64_mod }) w1
unfolding rpc
retry_not_signalled_example =
    retry_not_signalled most unreachable 250 240 30 40 request handler 0 signal_failed refl
