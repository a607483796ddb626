-- ===== src/Ledger/Gauge/Outcome.antt =====
-- What SubmitGaugePendingUpdates reports of each update.
use cloud_credit_system.Common.{
  ℕ, zero, suc, ◌≡◌, ◌⊎◌, refl, sym, subst, inl, inr, true, false, not, ◌&&◌, some, List, [], ◌∷◌,
  arith, All, All-map, length, get_elem?, modify, length-modify, ok, ◌>>=◌, then-ok, map,
  Option-cases, Bool-cases, ◌∙◌,
}
use cloud_credit_system.Ledger.TigerBeetle.{
  TigerBeetle, Transfer, CreateTransferResult, TransferEventResult,
}
use cloud_credit_system.Ledger.Gauge.{
  GaugePendingUpdate, GaugePendingResult, Meta, assume_accepted, reject, apply_failure,
  apply_failures, is_accepted, id_at, assign_ids, new_pending_ids, gauge_results, gauge_transfers,
  send_gauge_transfers, submit_gauge_pending_updates,
}

All-modify :
    {T : Type 0} {P : T → Type 0} (xs : List T) (i : ℕ) (f : T → T)
    → All P xs
    → ((x : T) → get_elem? xs i ≡ some x → P x → P (f x))
    → All P (modify xs i f)
All-modify [] i f h g = tt
All-modify (x ∷ xs) zero f h g = (g x refl h.0, h.1)
All-modify (x ∷ xs) (suc i) f h g = (h.0, All-modify xs i f h.1 g)

-- An accepted update does not exceed the credits, and a rejected one does and has no reservation.
abbrev pub Consistent : GaugePendingResult → Type 0
Consistent r =
    ((r.accepted ≡ true) × (r.exceeds_credits ≡ false))
    ⊎ ((r.accepted ≡ false) × (r.exceeds_credits ≡ true) × (r.new_pending_id ≡ 0))

-- No IDs are assigned yet.
abbrev Fresh : GaugePendingResult → Type 0
Fresh r = Consistent r × (r.new_pending_id ≡ 0)

assume_accepted-Fresh : (us : List GaugePendingUpdate) → All Fresh (assume_accepted us)
unfolding assume_accepted
assume_accepted-Fresh [] = tt
assume_accepted-Fresh (u ∷ us) = ((inl (refl, refl), refl), assume_accepted-Fresh us)

length-assume_accepted : (us : List GaugePendingUpdate) → length (assume_accepted us) ≡ length us
unfolding assume_accepted
length-assume_accepted [] = refl
length-assume_accepted (u ∷ us) = omega (arith, length-assume_accepted us)

apply_failure-Fresh :
    (i : ℕ) (m : Meta) (f : CreateTransferResult) (rs out : List GaugePendingResult)
    → apply_failure i m f rs ≡ ok out
    → (out ≡ rs) ⊎ (out ≡ modify rs m.update_idx reject)
unfolding apply_failure
apply_failure-Fresh i m f rs out h = ground (arith, h)

reject-Fresh : (r : GaugePendingResult) → Fresh r → Fresh (reject r)
reject-Fresh r h = (inr (refl, refl, h.1), h.1)

-- The results so far: fresh, and as many as there are updates.
record Pending (n : ℕ) (rs : List GaugePendingResult) : Type 0 where
  all_fresh : All Fresh rs
  one_each : length rs ≡ n

reject-Pending :
    (n i : ℕ) (rs : List GaugePendingResult) → Pending n rs → Pending n (modify rs i reject)
reject-Pending n i rs p = record {
  all_fresh = All-modify rs i reject p.all_fresh (λ r _ h. reject-Fresh r h);
  one_each = length-modify rs i reject ∙ p.one_each;
}

apply_failure-Pending :
    (n i : ℕ) (m : Meta) (f : CreateTransferResult) (rs out : List GaugePendingResult)
    → apply_failure i m f rs ≡ ok out
    → Pending n rs
    → Pending n out
apply_failure-Pending n i m f rs out h p = elim (apply_failure-Fresh i m f rs out h) [
  | inl e ↦ subst (Pending n) (sym e) p
  | inr e ↦ subst (Pending n) (sym e) (reject-Pending n m.update_idx rs p)
]

apply_failures-Pending :
    (n : ℕ) (metas : List Meta) (es : List TransferEventResult) (rs out : List GaugePendingResult)
    → apply_failures metas es rs ≡ ok out
    → Pending n rs
    → Pending n out
unfolding apply_failures
apply_failures-Pending n metas [] rs out h p = subst (Pending n) (ground (arith, h)) p
apply_failures-Pending n metas (e ∷ es) rs out h p = elim (Option-cases (get_elem? metas e.index)) [
  | inl q ↦ absurd (ground (arith, h, q))
  | inr (m, q) ↦
      let goes : (apply_failure e.index m e.result rs >>= apply_failures metas es) ≡ ok out =
        ground (arith, h, q) in
      let (mid, e1, e2) =
        then-ok (apply_failure e.index m e.result rs) (apply_failures metas es) out goes in
      apply_failures-Pending n metas es mid out e2
        (apply_failure-Pending n e.index m e.result rs mid e1 p)
]

-- The results at the end.
record Settled (n : ℕ) (rs : List GaugePendingResult) : Type 0 where
  all_consistent : All Consistent rs
  one_each : length rs ≡ n

accepted_at :
    (rs : List GaugePendingResult) (i : ℕ) (r : GaugePendingResult)
    → is_accepted rs i ≡ true
    → get_elem? rs i ≡ some r
    → r.accepted ≡ true
accepted_at rs i r h e = ground (arith, h, e)

assign-Consistent :
    (id : ℕ) (r : GaugePendingResult)
    → r.accepted ≡ true
    → Consistent r
    → Consistent (record r { new_pending_id = id })
assign-Consistent id r a h = ground (arith, a, h)

assign_ids-Settled :
    (n : ℕ) (ids : List ℕ) (ms : List Meta) (rs : List GaugePendingResult)
    → Settled n rs
    → Settled n (assign_ids ids ms rs)
unfolding assign_ids
assign_ids-Settled n ids [] rs s = s
assign_ids-Settled n ids (m ∷ ms) rs s =
    elim (Bool-cases (not m.is_void && is_accepted rs m.update_idx)) [
      | inl e ↦ rw e (
          assign_ids-Settled n ids ms _ (record {
            all_consistent = All-modify rs m.update_idx _ s.all_consistent (λ r at h.
                assign-Consistent (id_at ids m.update_idx) r
                  (accepted_at rs m.update_idx r (ground (arith, e)) at) h);
            one_each = length-modify rs m.update_idx _ ∙ s.one_each;
          }))
      | inr e ↦ rw e (assign_ids-Settled n ids ms rs s)
    ]

fresh_Settled : (n : ℕ) (rs : List GaugePendingResult) → Pending n rs → Settled n rs
fresh_Settled n rs p = record {
  all_consistent = All-map rs (λ r h. h.0) p.all_fresh;
  one_each = p.one_each;
}

start_Pending : (us : List GaugePendingUpdate) → Pending (length us) (assume_accepted us)
start_Pending us = record {
  all_fresh = assume_accepted-Fresh us;
  one_each = length-assume_accepted us;
}

gauge_results-Settled :
    (random : ℕ → ℕ) (us : List GaugePendingUpdate) (metas : List Meta)
    (es : List TransferEventResult) (out : List GaugePendingResult)
    → gauge_results random us metas es ≡ ok out
    → Settled (length us) out
unfolding gauge_results
gauge_results-Settled random us metas es out h =
    let ids = new_pending_ids random 0 us in
    let (rs, e1, e2) =
      then-ok (apply_failures metas es (assume_accepted us)) (λ mid. ok (assign_ids ids metas mid))
        out h in
    let pending =
      apply_failures-Pending (length us) metas es (assume_accepted us) rs e1 (start_Pending us) in
    subst (Settled (length us)) (ground (arith, e2))
      (assign_ids-Settled (length us) ids metas rs (fresh_Settled (length us) rs pending))

module _ (tb : TigerBeetle) where
  send-Settled :
      (random : ℕ → ℕ) (us : List GaugePendingUpdate) (ts : List (Transfer × Meta)) (s : tb.Store)
      (out : List GaugePendingResult)
      → (send_gauge_transfers tb random us ts s).0 ≡ ok out
      → Settled (length us) out
  unfolding send_gauge_transfers
  send-Settled random us [] s out h =
      subst (Settled (length us)) (ground (arith, h))
        (fresh_Settled (length us) (assume_accepted us) (start_Pending us))
  send-Settled random us (t ∷ ts) s out h =
      elim (Option-cases (tb.create_transfers (map (λ p. p.0) (t ∷ ts)) s).0) [
        | inl n ↦ absurd (ground (arith, h, n))
        | inr (es, e) ↦
            gauge_results-Settled random us (map (λ p. p.1) (t ∷ ts)) es out (ground (arith, h, e))
      ]

  -- If SubmitGaugePendingUpdates returns results, there is one for each update, and each either is
  -- accepted and does not exceed the credits, or is rejected, exceeds the credits and has no new
  -- reservation: a rejected gauge never leaves a pending ID behind.
  pub gauge_updates-Consistent :
      (random : ℕ → ℕ) (us : List GaugePendingUpdate) (s : tb.Store) (out : List GaugePendingResult)
      → (submit_gauge_pending_updates tb random us s).0 ≡ ok out
      → All Consistent out × (length out ≡ length us)
  unfolding submit_gauge_pending_updates
  gauge_updates-Consistent random us s out h = elim (Option-cases (gauge_transfers random 0 us)) [
    | inl n ↦ absurd (ground (arith, h, n))
    | inr (ts, e) ↦
        let settled = send-Settled random us ts s out (ground (arith, h, e)) in
        (settled.all_consistent, settled.one_each)
  ]
