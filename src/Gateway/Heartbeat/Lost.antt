-- ===== src/Gateway/Heartbeat/Lost.antt =====
-- What a heartbeat whose signal failed leads to when the client sends it again.
use cloud_credit_system.Common.{
  ℕ, ◌+◌, ◌%◌, ◌≡◌, Bool, true, arith, nat_key, err, inl, inr, Option-cases,
}
use cloud_credit_system.Common.Maps.{lookup, lookup-insert}
use cloud_credit_system.Common.Int.{ℤ, u64_mod}
use cloud_credit_system.Gateway.Dedup.{MemDedup, is_duplicate}
use cloud_credit_system.Gateway.Heartbeat.Resolve.{Services, HandlerError, HeartbeatRequest}
use cloud_credit_system.Gateway.Heartbeat.Handler.{HandlerState, heartbeat, answer, after_signal}

-- After a check the same heartbeat is a duplicate, at any time.
checked_twice :
    (c n now now' : ℕ) (d : MemDedup)
    → is_duplicate c n now' (is_duplicate c n now d).1 ≡ (true, (is_duplicate c n now d).1)
unfolding is_duplicate
checked_twice c n now now' d = elim (Option-cases (lookup c d.entries)) [
  | inl e ↦ ground (arith, e, lookup-insert c c (record { seq = n; seen_at = now }) d.entries)
  | inr (p, e) ↦ ground (arith, e, lookup-insert c c (record { seq = n; seen_at = now }) d.entries)
]

module _ (ratio_ge_80 : ℤ → ℤ → Bool) {W : Type 0} (sv : Services W) where
  dedup-heartbeat :
      (us now : ℕ) (req : HeartbeatRequest) (h : HandlerState) (w : W)
      → (heartbeat ratio_ge_80 sv us now req h w).1.dedup
        ≡ (is_duplicate req.cluster_id req.sequence_number now h.dedup).1
  unfolding heartbeat answer after_signal
  dedup-heartbeat us now req h w = ground arith

  duplicate_answered :
      (us now : ℕ) (req : HeartbeatRequest) (h : HandlerState) (w : W)
      → is_duplicate req.cluster_id req.sequence_number now h.dedup ≡ (true, h.dedup)
      → heartbeat ratio_ge_80 sv us now req h w
        ≡ answer ratio_ge_80 sv req.cluster_id
            (record h { inbound_msgs = (h.inbound_msgs + 1) % u64_mod })
            w
  unfolding heartbeat
  duplicate_answered us now req h w e = ground arith

  -- The gateway marks a heartbeat as seen before it has signalled the workflow. So if the unary RPC
  -- fails, for whatever reason, and the client sends the same heartbeat again, the second call is
  -- answered as a duplicate: it succeeds, and no signal is sent.
  pub retry_not_signalled :
      (us us' now now' : ℕ) (req : HeartbeatRequest) (h : HandlerState) (w : W) (e : HandlerError)
      → (heartbeat ratio_ge_80 sv us now req h w).0 ≡ err e
      → let (_, h1, w1) = heartbeat ratio_ge_80 sv us now req h w in
        heartbeat ratio_ge_80 sv us' now' req h1 w1
        ≡ answer ratio_ge_80 sv req.cluster_id
            (record h1 { inbound_msgs = (h1.inbound_msgs + 1) % u64_mod })
            w1
  retry_not_signalled us us' now now' req h w e failed =
      let (_, h1, w1) = heartbeat ratio_ge_80 sv us now req h w in
      let marked = dedup-heartbeat us now req h w in
      duplicate_answered us' now' req h1 w1
        (rw marked (checked_twice req.cluster_id req.sequence_number now now' h.dedup))
