-- ===== src/Tests/Display.antt =====
-- The terminal interface of the simulator.
use cloud_credit_system.Common.{ℕ, ◌+◌, ◌*◌, ◌≡◌, some, List, [], ◌∷◌, arith}
use cloud_credit_system.Common.Recent.{keep_last}
use cloud_credit_system.Common.Int.{pos, negsuc}
use cloud_credit_system.Simulator.Display.{
  hard_limit, info, Event, Model, initial_model, next_key, space_key, tab_key, Msg, key_msg,
  window_size_msg, tick_msg, event_msg, run,
}
use cloud_credit_system.Simulator.Display.View.{Screen, view}
use cloud_credit_system.Simulator.Display.InRange.{InRange}
use cloud_credit_system.Simulator.Display.Log.{log_in, logged, session_in_order}

abbrev limit_hit : Event
limit_hit = record { timestamp = 8; kind = hard_limit; message = 1; tenant_idx = pos 1 }

abbrev stray : Event
stray = record { timestamp = 9; kind = info; message = 2; tenant_idx = negsuc 0 }

-- Four seconds pass, the third step is asked for, and the interface is paused on another tab.
abbrev session : List (ℕ × Msg)
session =
    (1, window_size_msg (pos 80) (pos 24))
    ∷ (4 * 1_000_000_000, tick_msg)
    ∷ (5 * 1_000_000_000, key_msg next_key)
    ∷ (6 * 1_000_000_000, event_msg limit_hit)
    ∷ (6 * 1_000_000_000, event_msg stray)
    ∷ (7 * 1_000_000_000, key_msg space_key)
    ∷ (7 * 1_000_000_000, key_msg tab_key)
    ∷ []

session_in_order_example :
    (m : Model) × (run (λ label. 100 + label) session (initial_model 1 2 3 4 0) ≡ some m)
    × InRange m
    × ((screen : Screen) × (view m ≡ some screen))
    × (log_in m.tenants 1 ≡ some (limit_hit ∷ []))
unfolding logged keep_last
session_in_order_example =
    session_in_order (λ label. 100 + label) 1 2 3 4 0 session 1 (omega arith)
      (tt, (tt, (tt, (tt, (tt, (tt, (tt, tt)))))))
