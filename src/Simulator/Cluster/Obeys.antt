-- ===== src/Simulator/Cluster/Obeys.antt =====
-- When a cluster sends and when it holds back.
use cloud_credit_system.Common.{
  ℕ, ◌≡◌, ◌≢◌, ◌↔◌, refl, Bool, true, false, not, ◌&&◌, List, [], ◌∷◌, arith, All, sym, ◌∙◌,
  if◌then◌else◌,
}
use cloud_credit_system.Simulator.Cluster.{
  Session, ServerResponse, Load, Draws, CommandType, shutdown, new_session, has_kill, count_ack,
  obey, on_response, send_tick, on_tick, on_replay, on_exhaust, step_exhaust, step_idempotency,
  set_paused, Step, response_step, tick_step, replay_step, exhaust_step, drive_step,
  idempotency_step, pause_step, Reach, here, next,
}
use cloud_credit_system.Common.Int.{ℤ}
use cloud_credit_system.Common.Maps.{Map}
use cloud_credit_system.Domain.Resource.{ResourceType}
use cloud_credit_system.Gateway.Quotas.{
  Command, SnapshotRow, quota_exceeded, heartbeat_quotas, overall_status, build_pending_commands,
}
use cloud_credit_system.Gateway.Quotas.Laws.{overall_status_iff_commands}

-- The flags of the two goroutines against the responses.
pub record IsObedient (s : Session) : Type 0 where
  pub remembers : s.cluster.was_stopped ≡ s.killed
  pub stops : s.cluster.stopped ≡ (s.killed && not s.restarted)
  pub restarts : (s.restarted && s.killed) ≡ s.restarted

obey-IsObedient : (kill : Bool) (s : Session) → IsObedient s → IsObedient (obey kill s)
unfolding obey
obey-IsObedient kill s h = ground arith

count_ack-IsObedient : (ack : ℕ) (s : Session) → IsObedient s → IsObedient (count_ack ack s)
unfolding count_ack
count_ack-IsObedient ack s h = ground arith

on_tick-IsObedient :
    (load : Load) (d : Draws) (delivered : Bool) (s : Session)
    → IsObedient s
    → IsObedient (on_tick load d delivered s)
unfolding on_tick send_tick
on_tick-IsObedient load d delivered s h = ground arith

Step-IsObedient : {load : Load} {s s' : Session} → Step load s s' → IsObedient s → IsObedient s'
unfolding on_response on_replay on_exhaust step_exhaust step_idempotency set_paused
Step-IsObedient (response_step r s) h =
    obey-IsObedient (has_kill r.pending_commands) _ (count_ack-IsObedient r.ack_sequence s h)
Step-IsObedient {load} (tick_step d delivered s e) h = on_tick-IsObedient load d delivered s h
Step-IsObedient (replay_step n rest s e f) h = record {
  remembers = h.remembers;
  stops = h.stops;
  restarts = h.restarts;
}
Step-IsObedient (exhaust_step s e f) h = record {
  remembers = h.remembers;
  stops = h.stops;
  restarts = h.restarts;
}
Step-IsObedient (drive_step s e) h = ground arith
Step-IsObedient (idempotency_step s) h = record {
  remembers = h.remembers;
  stops = h.stops;
  restarts = h.restarts;
}
Step-IsObedient (pause_step b s) h = record {
  remembers = h.remembers;
  stops = h.stops;
  restarts = h.restarts;
}

Reach-IsObedient : {load : Load} {id : ℕ} {s : Session} → Reach load id s → IsObedient s
unfolding new_session
Reach-IsObedient here = record { remembers = refl; stops = refl; restarts = refl }
Reach-IsObedient (next r step) = Step-IsObedient step (Reach-IsObedient r)

-- In every session, a tick does nothing while the scenario is paused, nor while the latest response had a
-- shutdown command, unless stepExhaust has restarted the cluster since that command; else it sends
-- one heartbeat.
pub on_tick_obeys :
    {load : Load} {id : ℕ} {s : Session} (d : Draws) (delivered : Bool)
    → Reach load id s
    → on_tick load d delivered s ≡ (
        if s.paused
        then s
        else if s.killed && not s.restarted
        then s
        else send_tick load d delivered s)
unfolding on_tick
on_tick_obeys d delivered r = rw (← (Reach-IsObedient r).stops)

abbrev pub on_responses : List ServerResponse → Session → Session
on_responses [] s = s
on_responses (r ∷ rs) s = on_responses rs (on_response r s)

restarted_stays :
    (rs : List ServerResponse) (s : Session)
    → All (λ (r : ServerResponse). has_kill r.pending_commands ≡ true) rs
    → s.cluster.was_stopped ≡ true
    → (on_responses rs s).cluster.stopped ≡ s.cluster.stopped
unfolding on_response count_ack obey
restarted_stays [] s kills was = refl
restarted_stays (r ∷ rs) s kills was =
    restarted_stays rs (on_response r s) kills.1 (ground (arith, kills.0)) ∙ ground (arith, kills.0)

-- stepExhaust in a session that was told to shut down: however many further responses repeat the shutdown
-- command, the cluster is not stopped again.
pub restart_ignores_kills :
    {load : Load} {id : ℕ} {s : Session} (rs : List ServerResponse)
    → Reach load id s
    → s.killed ≡ true
    → All (λ (r : ServerResponse). has_kill r.pending_commands ≡ true) rs
    → (on_responses rs (step_exhaust s)).cluster.stopped ≡ false
unfolding step_exhaust
restart_ignores_kills rs reached killed kills =
    restarted_stays rs _ kills ((Reach-IsObedient reached).remembers ∙ killed)

-- The commands as the client receives them: the server sends shutdowns only.
abbrev pub received : List Command → List CommandType
received [] = []
received (c ∷ cs) = shutdown ∷ received cs

has_kill-received : (cs : List Command) → (has_kill (received cs) ≡ true) ↔ (cs ≢ [])
unfolding has_kill
has_kill-received [] = (λ e. absurd (cc e), λ n. absurd (n refl))
has_kill-received (c ∷ cs) = (λ e n. cc, λ n. refl)

stopped-on_response :
    (r : ServerResponse) (s : Session)
    → IsObedient s
    → s.restarted ≡ false
    → (on_response r s).cluster.stopped ≡ has_kill r.pending_commands
unfolding on_response count_ack obey
stopped-on_response r s h fresh = ground (arith, h.remembers, h.stops)

-- Across the wire: after a response that the server makes of the rows of a tenant, a cluster that was not
-- restarted is stopped exactly when the overall status of the response is QUOTA_EXCEEDED.
pub stopped_iff_exceeded :
    {load : Load} {id : ℕ} {s : Session} (ack : ℕ) (ratio_ge_80 : ℤ → ℤ → Bool)
    (exceeded : Map ResourceType Bool) (rows : List SnapshotRow)
    → Reach load id s
    → s.restarted ≡ false
    → let quotas = heartbeat_quotas ratio_ge_80 exceeded rows in
      let response : ServerResponse = record {
        ack_sequence = ack;
        pending_commands = received (build_pending_commands quotas);
      } in
      ((on_response response s).cluster.stopped ≡ true) ↔ (overall_status quotas ≡ quota_exceeded)
stopped_iff_exceeded {s} ack ratio_ge_80 exceeded rows reached fresh =
    let commands = build_pending_commands (heartbeat_quotas ratio_ge_80 exceeded rows) in
    let response : ServerResponse = record {
      ack_sequence = ack;
      pending_commands = received commands;
    } in
    let status = overall_status_iff_commands ratio_ge_80 exceeded rows in
    let killed = has_kill-received commands in
    let stops = stopped-on_response response s (Reach-IsObedient reached) fresh in
    (λ on. status.1 (killed.0 (sym stops ∙ on)), λ over. stops ∙ killed.1 (status.0 over))
