-- ===== src/Gateway/Stream/Queue.antt =====
-- A queue of requests whose sequence numbers rise.
use cloud_credit_system.Common.{
  ℕ, ◌≤◌, ◌<◌, ◌≡◌, sym, subst, inl, inr, true, Option, none, some, List, [], ◌∷◌, ◌++◌, arith, All,
  All-map, All-append, length, length-append, ltb, nat_key, Bool-cases, if◌then◌else◌,
}
use cloud_credit_system.Gateway.Dedup.{DedupEntry, is_new}
use cloud_credit_system.Gateway.Dedup.Laws.{seq_of}
use cloud_credit_system.Gateway.Heartbeat.Resolve.{HeartbeatRequest}
use cloud_credit_system.Gateway.Stream.{sig_ch_size}

-- Each request has a lower sequence number than all that come after it.
abbrev pub Ascending : List HeartbeatRequest → Type 0
Ascending [] = Unit
Ascending (x ∷ xs) = All (λ q. x.sequence_number < q.sequence_number) xs × Ascending xs

-- No request is above the number that was last let through; before the first there are none.
abbrev pub Below : Option ℕ → List HeartbeatRequest → Type 0
Below none xs = xs ≡ []
Below (some p) xs = All (λ q. q.sequence_number ≤ p) xs

Ascending-append :
    (xs : List HeartbeatRequest) (y : HeartbeatRequest)
    → Ascending xs
    → All (λ q. q.sequence_number < y.sequence_number) xs
    → Ascending (xs ++ (y ∷ []))
Ascending-append [] y a h = (tt, tt)
Ascending-append (x ∷ xs) y a h = (
  All-append (λ q. x.sequence_number < q.sequence_number) xs (y ∷ []) a.0 (h.0, tt),
  Ascending-append xs y a.1 h.1,
)

pub new-Below :
    (m : Option DedupEntry) (n : ℕ) (xs : List HeartbeatRequest)
    → is_new m n ≡ true
    → Below (seq_of m) xs
    → All (λ q. q.sequence_number < n) xs
new-Below none n xs h b = subst (λ l. All (λ q. q.sequence_number < n) l) (sym b) tt
new-Below (some e) n xs h b = All-map xs (λ q le. ground arith) b

-- The queue after a request that is let through.
abbrev pub pushed : HeartbeatRequest → List HeartbeatRequest → List HeartbeatRequest
pushed req xs = if ltb (length xs) sig_ch_size then xs ++ (req ∷ []) else xs

pub pushed_in_order :
    (req : HeartbeatRequest) (xs : List HeartbeatRequest)
    → Ascending xs
    → length xs ≤ sig_ch_size
    → All (λ q. q.sequence_number < req.sequence_number) xs
    → Ascending (pushed req xs)
      × (length (pushed req xs) ≤ sig_ch_size)
      × Below (some req.sequence_number) (pushed req xs)
pushed_in_order req xs a l h =
    let weak : All (λ q. q.sequence_number ≤ req.sequence_number) xs =
      All-map xs (λ q lt. omega arith) h in
    let own : req.sequence_number ≤ req.sequence_number = omega arith in
    elim (Bool-cases (ltb (length xs) sig_ch_size)) [
      | inl e ↦ rw e (
        Ascending-append xs req a h,
        ground (arith, e, length-append xs (req ∷ [])),
        All-append (λ q. q.sequence_number ≤ req.sequence_number) xs (req ∷ []) weak (own, tt),
      )
      | inr e ↦ rw e (a, l, weak)
    ]
