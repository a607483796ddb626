-- ===== src/Gateway/Stream.antt =====
-- internal/gateway/heartbeat_handler.go, HeartbeatStream: the goroutine that receives and the one that
-- signals, with the channel between them.
pub mod Queue
pub mod Order
use cloud_credit_system.Common.{
  ℕ, zero, suc, ◌+◌, ◌%◌, Bool, true, false, Option, none, some, List, [], ◌∷◌, ◌++◌, ltb, length,
  nat_beq, if◌then◌else◌, Result, ok, err, nat_key,
}
use cloud_credit_system.Common.Int.{u64_mod}
use cloud_credit_system.Gateway.Dedup.{Check, MemDedup, is_duplicate}
use cloud_credit_system.Gateway.Streams.{StreamManager, register, touch, deregister}
use cloud_credit_system.Gateway.Latency.{LatencyRing, record_latency}
use cloud_credit_system.Gateway.Heartbeat.Resolve.{
  Services, HandlerError, cancelled, HeartbeatRequest, Cache, signal_heartbeat,
}

-- The buffer of `sigCh`.
abbrev pub sig_ch_size : ℕ
sig_ch_size = 256

-- `cluster_id` is 0 for the empty text, before the first message. `dedup`, `streams` and
-- `inbound_msgs` belong to the handler. The deduplicator is the one in memory, as it is used where
-- Valkey is not reachable, between two ticks of `pruneLoop`.
pub record StreamState : Type 0 where
  pub cluster_id : ℕ
  pub dedup : MemDedup
  pub streams : StreamManager
  pub inbound_msgs : ℕ
  pub sig_ch : List HeartbeatRequest

-- `if clusterID == ""`: the first message names and registers the cluster.
unfoldable pub identify : ℕ → HeartbeatRequest → StreamState → StreamState
identify now req s =
    if nat_beq s.cluster_id 0
    then record s {
      cluster_id = req.cluster_id;
      streams = register req.cluster_id now now s.streams;
    }
    else s

-- `sigCh <- req`, or a drop when the channel stays full. A place that is freed in time is a drain
-- before the message: the two touch nothing in common.
unfoldable pub enqueue : HeartbeatRequest → StreamState → StreamState
enqueue req s =
    if ltb (length s.sig_ch) sig_ch_size then record s { sig_ch = s.sig_ch ++ (req ∷ []) } else s

-- After the check for duplicates.
unfoldable pub pass_on : HeartbeatRequest → Bool × MemDedup → StreamState → StreamState
pass_on req (true, d) s = record s { dedup = d }
pass_on req (false, d) s = enqueue req (record s { dedup = d })

-- The two assignments before the check.
unfoldable pub count_message : ℕ → StreamState → StreamState
count_message now s = record s {
  inbound_msgs = (s.inbound_msgs + 1) % u64_mod;
  streams = touch s.cluster_id now s.streams;
}

-- One message.
unfoldable pub receive : ℕ → HeartbeatRequest → StreamState → StreamState
receive now req s0 =
    let s = count_message now (identify now req s0) in
    pass_on req (is_duplicate s.cluster_id req.sequence_number now s.dedup) s

abbrev pub tail : List HeartbeatRequest → List HeartbeatRequest
tail [] = []
tail (req ∷ rest) = rest

-- The dispatcher takes the oldest request, if there is one.
unfoldable pub drain : StreamState → StreamState
drain s = record s { sig_ch = tail s.sig_ch }

-- The deferred call at the end of the stream.
unfoldable pub close_stream : StreamState → StreamState
close_stream s =
    if nat_beq s.cluster_id 0 then s else record s { streams = deregister s.cluster_id s.streams }

-- Another stream, or a unary RPC, asks the deduplicator that the handler shares among them.
unfoldable pub ask_elsewhere : Check → StreamState → StreamState
ask_elsewhere k s = record s { dedup = (is_duplicate k.cluster k.seq k.now s.dedup).1 }

pub data StreamEvent : Type 0 where
  message : ℕ → HeartbeatRequest → StreamEvent
  taken : StreamEvent
  asked : Check → StreamEvent

unfoldable pub stream_step : StreamEvent → StreamState → StreamState
stream_step (message now req) s = receive now req s
stream_step taken s = drain s
stream_step (asked k) s = ask_elsewhere k s

unfoldable pub stream_run : List StreamEvent → StreamState → StreamState
stream_run [] s = s
stream_run (e ∷ es) s = stream_run es (stream_step e s)

-- The state of a new stream.
unfoldable pub opened : MemDedup → StreamManager → ℕ → StreamState
opened d m count = record {
  cluster_id = 0;
  dedup = d;
  streams = m;
  inbound_msgs = count;
  sig_ch = [];
}

-- What the dispatcher does of a request: `interrupted` ends the dispatcher.
pub data Dispatched : Type 0 where
  signalled interrupted : Dispatched
  gave_up : HandlerError → Dispatched

-- `len(backoffs)`
abbrev pub backoffs : ℕ
backoffs = 3

module _ {W : Type 0} (sv : Services W) where
  -- The attempts that are left after one failed with `e`; there is a wait before each.
  unfoldable pub retries : ℕ → HandlerError → HeartbeatRequest → Cache → W → Dispatched × Cache × W
  retries zero e req cache w = (gave_up e, cache, w)
  retries (suc n) e req cache w =
      let (go, w1) = sv.wait w in
      elim go [
        | false ↦ (interrupted, cache, w1)
        | true ↦
            let (sent, cache', w2) = signal_heartbeat sv req cache w1 in
            elim sent [ ok _ ↦ (signalled, cache', w2) | err e' ↦ retries n e' req cache' w2 ]
      ]

  -- The loop over the attempts at one request.
  unfoldable pub send_with_retries : HeartbeatRequest → Cache → W → Dispatched × Cache × W
  send_with_retries req cache w =
      let (sent, cache', w') = signal_heartbeat sv req cache w in
      elim sent [ ok _ ↦ (signalled, cache', w') | err e ↦ retries backoffs e req cache' w' ]

  -- `h.recordLatency` at the end of the loop's body, with the duration `us`.
  abbrev pub timed : ℕ → Dispatched → LatencyRing → LatencyRing
  timed us signalled ring = record_latency us ring
  timed us (gave_up e) ring = record_latency us ring
  timed us interrupted ring = ring

  -- The body of the dispatcher's loop.
  unfoldable pub dispatch :
      ℕ → HeartbeatRequest → Cache → LatencyRing → W → Dispatched × Cache × LatencyRing × W
  dispatch us req cache ring w =
      let (outcome, cache', w') = send_with_retries req cache w in
      (outcome, cache', timed us outcome ring, w')
