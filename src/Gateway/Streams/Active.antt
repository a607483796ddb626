-- ===== src/Gateway/Streams/Active.antt =====
-- Which clusters have a stream, and since when.
use cloud_credit_system.Common.{
  ℕ, ◌≡◌, refl, inl, inr, Option, none, some, List, [], ◌∷◌, arith, nat_key, nat_beq, if◌then◌else◌,
  Option-cases,
}
use cloud_credit_system.Common.Maps.{lookup, lookup-insert, lookup-erase}
use cloud_credit_system.Gateway.Streams.{
  StreamEntry, StreamManager, new_stream_manager, register, deregister, touch, StreamCall,
  register_call, touch_call, deregister_call, call, calls,
}

-- What the calls say of a cluster: when it connected and when it was last seen, or that it has no
-- stream.
abbrev pub Presence : Type 0
Presence = Option (ℕ × ℕ)

abbrev pub seen_again : ℕ → Presence → Presence
seen_again now none = none
seen_again now (some (since, last)) = some (since, now)

abbrev pub presence : ℕ → List StreamCall → Presence → Presence
presence c [] p = p
presence c (register_call k now ∷ ks) p = presence c ks (if nat_beq k c then some (now, now) else p)
presence c (touch_call k now ∷ ks) p = presence c ks (if nat_beq k c then seen_again now p else p)
presence c (deregister_call k ∷ ks) p = presence c ks (if nat_beq k c then none else p)

abbrev pub presence_of : Option StreamEntry → Presence
presence_of none = none
presence_of (some e) = some (e.connected_at, e.last_seen)

presence-touch :
    (c k now : ℕ) (m : StreamManager)
    → presence_of (lookup c (touch k now m)) ≡ (
        if nat_beq k c then seen_again now (presence_of (lookup c m)) else presence_of (lookup c m))
unfolding touch
presence-touch c k now m = elim (Option-cases (lookup k m)) [
  | inl e ↦ ground (arith, e)
  | inr (x, e) ↦ ground (arith, e, lookup-insert k c (record x { last_seen = now }) m)
]

presence-calls :
    (c : ℕ) (ks : List StreamCall) (m : StreamManager)
    → presence_of (lookup c (calls ks m)) ≡ presence c ks (presence_of (lookup c m))
unfolding calls call register deregister
presence-calls c [] m = refl
presence-calls c (register_call k now ∷ ks) m =
    let e : StreamEntry = record { cluster_id = k; connected_at = now; last_seen = now } in
    ground (arith, presence-calls c ks (register k now now m), lookup-insert k c e m)
presence-calls c (touch_call k now ∷ ks) m =
    rw (presence-calls c ks (touch k now m), presence-touch c k now m) refl
presence-calls c (deregister_call k ∷ ks) m =
    ground (arith, presence-calls c ks (deregister k m), lookup-erase k c m)

-- After any sequence of calls a cluster has an entry exactly if it registered and did not deregister
-- since: the entry has the time of the last registration, and the time of the last call since then
-- that registered or touched it. Calls for other clusters do not matter, and a touch alone makes no
-- entry.
pub entry-presence :
    (c : ℕ) (ks : List StreamCall)
    → presence_of (lookup c (calls ks new_stream_manager)) ≡ presence c ks none
unfolding new_stream_manager
entry-presence c ks = presence-calls c ks new_stream_manager
