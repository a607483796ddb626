-- ===== src/Tests/Simulator.antt =====
-- The agent of a simulated cluster.
use cloud_credit_system.Common.{◌≡◌, ◌↔◌, refl, Bool, true, false, some, [], ◌∷◌, arith}
use cloud_credit_system.Common.Int.{ℤ, pos}
use cloud_credit_system.Domain.Resource.{cpu_hours}
use cloud_credit_system.Gateway.Dedup.{Check, is_duplicate, check_all, new_mem_dedup}
use cloud_credit_system.Gateway.Quotas.{
  SnapshotRow, quota_exceeded, heartbeat_quotas, overall_status, build_pending_commands,
}
use cloud_credit_system.Simulator.Cluster.{
  Session, ServerResponse, Load, Draws, shutdown, new_session, has_kill, count_ack, obey,
  on_response, keep_recent, send_tick, on_tick, step_exhaust, step_idempotency, Reach, here, next,
  tick_step, idempotency_step,
}
use cloud_credit_system.Simulator.Cluster.Obeys.{received, stopped_iff_exceeded}
use cloud_credit_system.Simulator.Cluster.Numbers.{replay_is_duplicate}

abbrev flat : Load
flat = record {
  cpu_delta = λ nodes util. pos util;
  burst_cpu_delta = λ nodes. pos 99;
  mem_delta = λ nodes. pos nodes;
}

abbrev draws : Draws
draws = record { normal = 1; burst = 2; utilisation = 60 }

abbrev kill : ServerResponse
kill = record { ack_sequence = 1; pending_commands = shutdown ∷ [] }

-- One heartbeat is sent, and its number is to be replayed.
abbrev ticked : Session
ticked = on_tick flat draws true (new_session 5)

abbrev replaying : Session
replaying = step_idempotency ticked

abbrev killed : Session
killed = on_response kill ticked

agent : Unit {0}
unfolding on_tick send_tick new_session keep_recent on_response count_ack obey has_kill step_exhaust
    step_idempotency
agent = tt

ticked_reached : Reach flat 5 ticked
unfolding agent
ticked_reached = next here (tick_step draws true _ refl)

abbrev spent : SnapshotRow
spent = record {
  resource_type = cpu_hours;
  credits_total = pos 10;
  debits_posted = pos 10;
  debits_pending = pos 0;
  available = some (pos 0);
}

abbrev never : ℤ → ℤ → Bool
never a b = false

stopped_iff_exceeded_example :
    let quotas = heartbeat_quotas never [] (spent ∷ []) in
    let response : ServerResponse = record {
      ack_sequence = 1;
      pending_commands = received (build_pending_commands quotas);
    } in
    ((on_response response ticked).cluster.stopped ≡ true)
    ↔ (overall_status quotas ≡ quota_exceeded)
unfolding agent
stopped_iff_exceeded_example = stopped_iff_exceeded 1 never [] (spent ∷ []) ticked_reached refl

abbrev asked : Check
asked = record { cluster = 5; seq = 1; now = 0 }

replay_is_duplicate_example :
    (is_duplicate 5 1 10 (check_all (asked ∷ []) (new_mem_dedup 300))).0 ≡ true
unfolding agent
replay_is_duplicate_example =
    replay_is_duplicate {s = replaying} 1 10 300 [] (asked ∷ [])
      (next ticked_reached (idempotency_step ticked)) (omega arith) refl refl (omega arith)
