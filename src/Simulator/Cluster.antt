-- ===== src/Simulator/Cluster.antt =====
-- cmd/simulator/main.go, ClusterSim: the two goroutines of `run` and the steps of the scenario that act on
-- them. What is shown on the terminal is left out.
pub mod Obeys
pub mod Numbers
use cloud_credit_system.Common.{
  ℕ, zero, suc, ◌+◌, ◌-◌, ◌*◌, ◌%◌, ◌≡◌, Bool, true, false, not, ◌&&◌, Option, none, some, List, [],
  ◌∷◌, ◌++◌, ltb, if◌then◌else◌, length, take, drop,
}
use cloud_credit_system.Common.Int.{ℤ, pos, u64_mod}
use cloud_credit_system.Gateway.Heartbeat.Resolve.{HeartbeatRequest}

-- `creditsystemv1.Command_Type`
pub data CommandType : Type 0 where
  unspecified throttle scale_down shutdown : CommandType

-- What `run` reads of a HeartbeatResponse to steer the cluster.
pub record ServerResponse : Type 0 where
  pub ack_sequence : ℕ
  pub pending_commands : List CommandType

pub record TbStats : Type 0 where
  pub transfers_total : ℕ
  pub rejected : ℕ
  pub idempotent : ℕ

pub record SentHeartbeat : Type 0 where
  pub request : HeartbeatRequest
  pub last_ack_sequence : ℕ

-- A cluster with the variables of its goroutines. `exhaust_closed` tells that `exhaustCh` is closed,
-- `sending` that the send loop runs.
pub record ClusterSim : Type 0 where
  pub id : ℕ
  pub seq : ℕ
  pub last_ack : ℕ
  pub prev_ack : ℕ
  pub exhaust : Bool
  pub exhaust_closed : Bool
  pub replay_ch : List ℕ
  pub recent_seqs : List ℕ
  pub stopped : Bool
  pub was_stopped : Bool
  pub sending : Bool

-- A cluster on its stream. The last four fields are history, which no step reads: the heartbeats sent, the
-- latest first; how many of them the ticker caused; whether the latest response had a shutdown
-- command; whether the scenario has restarted the cluster since.
pub record Session : Type 0 where
  pub cluster : ClusterSim
  pub stats : TbStats
  pub paused : Bool
  pub sent : List SentHeartbeat
  pub ticks : ℕ
  pub killed : Bool
  pub restarted : Bool

-- newClusterSim, and `run` before its first event.
unfoldable pub new_session : ℕ → Session
new_session id = record {
  cluster = record {
    id = id;
    seq = 0;
    last_ack = 0;
    prev_ack = 0;
    exhaust = false;
    exhaust_closed = false;
    replay_ch = [];
    recent_seqs = [];
    stopped = false;
    was_stopped = false;
    sending = true;
  };
  stats = record { transfers_total = 0; rejected = 0; idempotent = 0 };
  paused = false;
  sent = [];
  ticks = 0;
  killed = false;
  restarted = false;
}

abbrev pub is_shutdown : CommandType → Bool
is_shutdown shutdown = true
is_shutdown c = false

-- The loop over `resp.PendingCommands`.
unfoldable pub has_kill : List CommandType → Bool
has_kill [] = false
has_kill (c ∷ cs) = if is_shutdown c then true else has_kill cs

-- A new acknowledgement counts three transfers for each number since the last one. The conversion to
-- `int` is exact below 2^61.
unfoldable pub count_ack : ℕ → Session → Session
count_ack ack s =
    let t = record s { cluster = record s.cluster { last_ack = ack } } in
    if ltb s.cluster.prev_ack ack
    then record t {
      cluster = record t.cluster { prev_ack = ack };
      stats = record s.stats {
        transfers_total = s.stats.transfers_total + (ack - s.cluster.prev_ack) * 3;
      };
    }
    else t

-- The kill signal and its end.
unfoldable pub obey : Bool → Session → Session
obey kill s =
    let t = record s { killed = kill; restarted = s.restarted && kill } in
    if kill && not s.cluster.was_stopped
    then record t {
      cluster = record s.cluster { was_stopped = true; stopped = true };
      stats = record s.stats { rejected = s.stats.rejected + 1 };
    }
    else if not kill && s.cluster.was_stopped
    then record t { cluster = record s.cluster { was_stopped = false; stopped = false } }
    else t

-- The body of the receiving goroutine.
unfoldable pub on_response : ServerResponse → Session → Session
on_response r s = obey (has_kill r.pending_commands) (count_ack r.ack_sequence s)

-- What `rand` gives in one tick: the two draws for the nodes, and the one for the CPU utilisation.
pub record Draws : Type 0 where
  pub normal : ℕ
  pub burst : ℕ
  pub utilisation : ℕ

-- The floating-point expressions of the tick, for the interval and the multiplier of the cluster.
pub record Load : Type 0 where
  pub cpu_delta : ℕ → ℕ → ℤ
  pub burst_cpu_delta : ℕ → ℤ
  pub mem_delta : ℕ → ℤ

abbrev pub nodes_of : Bool → Draws → ℕ
nodes_of exhaust d = if exhaust then d.burst + 18 else d.normal + 2

-- `append`, and the last ten where there are more.
unfoldable pub keep_recent : List ℕ → List ℕ
keep_recent seqs = if ltb 10 (length seqs) then drop (length seqs - 10) seqs else seqs

unfoldable pub tick_heartbeat : Load → Draws → ClusterSim → HeartbeatRequest
tick_heartbeat load d c =
    let nodes = nodes_of c.exhaust d in
    record {
      cluster_id = c.id;
      sequence_number = c.seq;
      cpu_milliseconds_delta =
          if c.exhaust then load.burst_cpu_delta nodes else load.cpu_delta nodes d.utilisation;
      memory_mb_seconds_delta = load.mem_delta nodes;
      active_nodes = pos nodes;
      timestamp = none;
    }

-- A tick that is not skipped. A failed send ends the loop.
unfoldable pub send_tick : Load → Draws → Bool → Session → Session
send_tick load d delivered s =
    let seq = (s.cluster.seq + 1) % u64_mod in
    let c = record s.cluster {
      seq = seq;
      recent_seqs = keep_recent (s.cluster.recent_seqs ++ (seq ∷ []));
      sending = delivered;
    } in
    record s {
      cluster = c;
      sent = record { request = tick_heartbeat load d c; last_ack_sequence = c.last_ack } ∷ s.sent;
      ticks = suc s.ticks;
    }

-- The ticker: nothing while the scenario is paused or the cluster is stopped.
unfoldable pub on_tick : Load → Draws → Bool → Session → Session
on_tick load d delivered s =
    if s.paused then s else if s.cluster.stopped then s else send_tick load d delivered s

unfoldable pub replayed_heartbeat : ℕ → ClusterSim → HeartbeatRequest
replayed_heartbeat n c = record {
  cluster_id = c.id;
  sequence_number = n;
  cpu_milliseconds_delta = pos 1000;
  memory_mb_seconds_delta = pos 500;
  active_nodes = pos 4;
  timestamp = none;
}

-- A number from `replayCh` is sent again; an error of this send is ignored.
unfoldable pub on_replay : ℕ → List ℕ → Session → Session
on_replay n rest s = record s {
  cluster = record s.cluster { replay_ch = rest };
  stats = record s.stats { idempotent = s.stats.idempotent + 1 };
  sent =
      record { request = replayed_heartbeat n s.cluster; last_ack_sequence = s.cluster.last_ack }
      ∷ s.sent;
}

-- `exhaustCh` is closed: burst load from now on, and a new channel.
unfoldable pub on_exhaust : Session → Session
on_exhaust s = record s { cluster = record s.cluster { exhaust = true; exhaust_closed = false } }

-- stepExhaust, at the cluster whose channel it closes.
unfoldable pub step_exhaust : Session → Session
step_exhaust s = record s {
  cluster = record s.cluster { stopped = false; exhaust_closed = true };
  restarted = s.killed;
}

-- stepIdempotency: at most three of the recent numbers, the oldest first. A channel that is full lets
-- the step wait, so what waits to be sent stands at its end.
unfoldable pub step_idempotency : Session → Session
step_idempotency s = record s {
  cluster = record s.cluster { replay_ch = s.cluster.replay_ch ++ take 3 s.cluster.recent_seqs };
}

unfoldable pub set_paused : Bool → Session → Session
set_paused b s = record s { paused = b }

-- The events of a session, in any order. `close` of a closed channel panics.
pub data Step (load : Load) : Session → Session → Type 0 where
  response_step : (r : ServerResponse) (s : Session) → Step load s (on_response r s)
  tick_step :
      (d : Draws) (delivered : Bool) (s : Session)
      → s.cluster.sending ≡ true
      → Step load s (on_tick load d delivered s)
  replay_step :
      (n : ℕ) (rest : List ℕ) (s : Session)
      → s.cluster.sending ≡ true
      → s.cluster.replay_ch ≡ n ∷ rest
      → Step load s (on_replay n rest s)
  exhaust_step :
      (s : Session)
      → s.cluster.sending ≡ true
      → s.cluster.exhaust_closed ≡ true
      → Step load s (on_exhaust s)
  drive_step : (s : Session) → s.cluster.exhaust_closed ≡ false → Step load s (step_exhaust s)
  idempotency_step : (s : Session) → Step load s (step_idempotency s)
  pause_step : (b : Bool) (s : Session) → Step load s (set_paused b s)

pub data Reach (load : Load) (id : ℕ) : Session → Type 0 where
  here : Reach load id (new_session id)
  next : {s s' : Session} → Reach load id s → Step load s s' → Reach load id s'
