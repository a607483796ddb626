-- ===== src/Gateway/Streams.antt =====
-- internal/gateway/stream_manager.go. `time.Now()` is an argument.
pub mod Active
use cloud_credit_system.Common.{ℕ, Option, none, some, List, [], ◌∷◌, nat_key, map}
use cloud_credit_system.Common.Maps.{Map, lookup, insert, erase}

pub record StreamEntry : Type 0 where
  pub cluster_id : ℕ
  pub connected_at : ℕ
  pub last_seen : ℕ

abbrev pub StreamManager : Type 0
StreamManager = Map ℕ StreamEntry

unfoldable pub new_stream_manager : StreamManager
new_stream_manager = []

-- The two readings of the clock are `now` and `seen`.
unfoldable pub register : ℕ → ℕ → ℕ → StreamManager → StreamManager
register cluster now seen m =
    insert cluster (record { cluster_id = cluster; connected_at = now; last_seen = seen }) m

unfoldable pub deregister : ℕ → StreamManager → StreamManager
deregister cluster m = erase cluster m

-- `e.LastSeen = time.Now()` if there is an entry.
abbrev pub touch_entry : ℕ → ℕ → Option StreamEntry → StreamManager → StreamManager
touch_entry cluster now none m = m
touch_entry cluster now (some e) m = insert cluster (record e { last_seen = now }) m

unfoldable pub touch : ℕ → ℕ → StreamManager → StreamManager
touch cluster now m = touch_entry cluster now (lookup cluster m) m

unfoldable pub active_clusters : StreamManager → List ℕ
active_clusters m = map (λ p. p.0) m

-- A call of the manager.
pub data StreamCall : Type 0 where
  register_call : ℕ → ℕ → StreamCall
  touch_call : ℕ → ℕ → StreamCall
  deregister_call : ℕ → StreamCall

unfoldable pub call : StreamCall → StreamManager → StreamManager
call (register_call c now) m = register c now now m
call (touch_call c now) m = touch c now m
call (deregister_call c) m = deregister c m

unfoldable pub calls : List StreamCall → StreamManager → StreamManager
calls [] m = m
calls (k ∷ ks) m = calls ks (call k m)
