-- ===== src/Accounting/Workflow/Dedup.antt =====
-- Invariant I-2 in the workflow: what has been flushed is never taken into a batch again.
use cloud_credit_system.Common.{
  ℕ, zero, suc, ◌≤◌, ◌≡◌, refl, subst, inl, inr, false, Option, none, some, List, [], ◌∷◌, arith,
  Option-cases, Bool-cases, nat_key, nat_beq, max, leb, length, Result, ok, err, get_elem?,
}
use cloud_credit_system.Common.Maps.{lookup, lookup-insert}
use cloud_credit_system.Accounting.Signals.{
  HeartbeatSignal, RegisterClusterSignal, QuotaAdjustmentSignal,
}
use cloud_credit_system.Accounting.Activities.{Activities}
use cloud_credit_system.Accounting.Workflow.State.{
  TenantAccountingState, advances, batch_size_threshold, start, carry,
}
use cloud_credit_system.Accounting.Workflow.Flush.{
  WorkflowError, flush_batch, flush_adjustment, finish_adjustment,
}
use cloud_credit_system.Accounting.Workflow.Loop.{
  Event, heartbeat, register, timer, credit, history_limit, receive_register, receive_heartbeat,
  accept_heartbeat, timer_fired, issue_credit, continue_as_new, step, run_rounds,
}
use cloud_credit_system.Accounting.Workflow.Seqs.{later, highest}
use cloud_credit_system.Accounting.Workflow.FlushOutcome.{
  CountsBatch, FlushOutcome, flush_batch-FlushOutcome,
}

-- Sequence number `n` of cluster `c` counts as processed.
abbrev pub Covers : TenantAccountingState → ℕ → ℕ → Type 0
Covers s c n = (p : ℕ) × (lookup c s.processed_seqs ≡ some p) × (n ≤ p)

later-le : (a : ℕ) (b : Option ℕ) → (p : ℕ) × (later (some a) b ≡ some p) × (a ≤ p)
later-le a none = (a, refl, omega arith)
later-le a (some b) = (max a b, refl, omega arith)

highest-le :
    (hbs : List HeartbeatSignal) (i : ℕ) (hb : HeartbeatSignal)
    → get_elem? hbs i ≡ some hb
    → (p : ℕ) × (highest hb.cluster_id hbs ≡ some p) × (hb.sequence_number ≤ p)
highest-le [] i hb e = cc
highest-le (x ∷ xs) zero hb e =
    let (p, e', le) = later-le x.sequence_number (highest hb.cluster_id xs) in
    (p, ground arith, ground arith)
highest-le (x ∷ xs) (suc i) hb e =
    let (p, e', le) = highest-le xs i hb e in
    elim (Bool-cases (nat_beq x.cluster_id hb.cluster_id)) [
      | inl same ↦ (max x.sequence_number p, rw (same, e') refl, omega arith)
      | inr differs ↦ (p, rw (differs, e') refl, le)
    ]

Covers-CountsBatch :
    (s s' : TenantAccountingState) (c n : ℕ) → CountsBatch s s' → Covers s c n → Covers s' c n
Covers-CountsBatch s s' c n h (p, e, le) =
    let (q, e', le') = later-le p (highest c s.cur_batch) in (q, rw (h.seqs c, e) e', omega arith)

Covers-register :
    (sig : RegisterClusterSignal) (s : TenantAccountingState) (c n : ℕ)
    → Covers s c n
    → Covers (receive_register sig s) c n
unfolding receive_register
Covers-register sig s c n (p, e, le) =
    elim (Option-cases (lookup sig.cluster_id s.processed_seqs)) [
      | inl missing ↦ (p, ground (arith, lookup-insert sig.cluster_id c 0 s.processed_seqs), le)
      | inr (q, found) ↦ (p, ground arith, le)
    ]

module _ (blake3 : List ℕ → List ℕ) {W : Type 0} (act : Activities W) (c n : ℕ) where
  Covers-outcome :
      (s s' : TenantAccountingState) (r : Result WorkflowError (Unit {0}))
      → FlushOutcome s r s'
      → Covers s c n
      → Covers s' c n
  Covers-outcome s s' (ok _) h covered = Covers-CountsBatch s s' c n h covered
  Covers-outcome s s' (err _) h covered = rw h covered

  Covers-flush :
      (s : TenantAccountingState) (w : W) → Covers s c n → Covers (flush_batch blake3 act s w).1 c n
  Covers-flush s w covered =
      Covers-outcome s (flush_batch blake3 act s w).1 (flush_batch blake3 act s w).0
        (flush_batch-FlushOutcome blake3 act s w) covered

  Covers-accept :
      (s : TenantAccountingState) (w : W)
      → Covers s c n
      → Covers (accept_heartbeat blake3 act s w).0 c n
  unfolding accept_heartbeat
  Covers-accept s w covered = elim (Bool-cases (leb batch_size_threshold (length s.cur_batch))) [
    | inl e ↦ rw e (Covers-flush s w covered)
    | inr e ↦ rw e covered
  ]

  Covers-heartbeat :
      (sig : HeartbeatSignal) (s : TenantAccountingState) (w : W)
      → Covers s c n
      → Covers (receive_heartbeat blake3 act sig s w).0 c n
  unfolding receive_heartbeat
  Covers-heartbeat sig s w covered =
      elim (Bool-cases (advances (lookup sig.cluster_id s.processed_seqs) sig.sequence_number)) [
        | inl e ↦ rw e (Covers-accept _ w covered)
        | inr e ↦ rw e covered
      ]

  processed_seqs-issue_credit :
      (sig : QuotaAdjustmentSignal) (s : TenantAccountingState) (w : W)
      → (issue_credit blake3 act sig s w).1.processed_seqs ≡ s.processed_seqs
  unfolding issue_credit flush_adjustment finish_adjustment
  processed_seqs-issue_credit sig s w = ground arith

  Covers-credit :
      (sig : QuotaAdjustmentSignal) (s : TenantAccountingState) (w : W)
      → Covers s c n
      → Covers (issue_credit blake3 act sig s w).1 c n
  Covers-credit sig s w covered = rw (processed_seqs-issue_credit sig s w) covered

  Covers-step :
      (e : Event) (s : TenantAccountingState) (w : W)
      → Covers s c n
      → Covers (step blake3 act e s w).0 c n
  unfolding step timer_fired continue_as_new start carry
  Covers-step (heartbeat sig) s w h = Covers-heartbeat sig s w h
  Covers-step (register sig) s w h = Covers-register sig s c n h
  Covers-step timer s w h = Covers-flush s w h
  Covers-step (credit sig) s w h = Covers-credit sig s w h
  Covers-step history_limit s w h = Covers-flush s w h

  Covers-run :
      (es : List Event) (s : TenantAccountingState) (w : W)
      → Covers s c n
      → Covers (run_rounds blake3 act es s w).0 c n
  unfolding run_rounds
  Covers-run [] s w h = h
  Covers-run (e ∷ es) s w h =
      let (s', w') = step blake3 act e s w in Covers-run es s' w' (Covers-step e s w h)

module _ (blake3 : List ℕ → List ℕ) {W : Type 0} (act : Activities W) where
  not_advances : (o : Option ℕ) (n p : ℕ) → o ≡ some p → n ≤ p → advances o n ≡ false
  not_advances o n p e le = ground arith

  skipped :
      (hb : HeartbeatSignal) (s : TenantAccountingState) (w : W)
      → Covers s hb.cluster_id hb.sequence_number
      → receive_heartbeat blake3 act hb s w ≡ (s, w)
  unfolding receive_heartbeat
  skipped hb s w (p, e, le) = rw (not_advances _ _ p e le)

  flushed-Covers :
      (s : TenantAccountingState) (s' : TenantAccountingState) (i : ℕ) (hb : HeartbeatSignal)
      → get_elem? s.cur_batch i ≡ some hb
      → CountsBatch s s'
      → Covers s' hb.cluster_id hb.sequence_number
  flushed-Covers s s' i hb e h =
      let (p, e', le) = highest-le s.cur_batch i hb e in
      elim (Option-cases (lookup hb.cluster_id s.processed_seqs)) [
        | inl missing ↦ (p, rw (h.seqs hb.cluster_id, missing, e'), le)
        | inr (q, found) ↦ (max q p, rw (h.seqs hb.cluster_id, found, e'), omega arith)
      ]

  -- Once a flush that holds a heartbeat has succeeded, that heartbeat is skipped for ever: after any
  -- later rounds of the main loop, credit updates and continuations as new included, receiving it
  -- again changes neither the state nor the world.
  pub flushed_once :
      (s : TenantAccountingState) (w : W) (i : ℕ) (hb : HeartbeatSignal) (es : List Event)
      → get_elem? s.cur_batch i ≡ some hb
      → (flush_batch blake3 act s w).0 ≡ ok tt
      → let (_, s1, w1) = flush_batch blake3 act s w in
        let (s2, w2) = run_rounds blake3 act es s1 w1 in
        receive_heartbeat blake3 act hb s2 w2 ≡ (s2, w2)
  flushed_once s w i hb es e success =
      let (_, s1, w1) = flush_batch blake3 act s w in
      let counted : CountsBatch s s1 =
        subst (λ r. FlushOutcome s r s1) success (flush_batch-FlushOutcome blake3 act s w) in
      skipped hb _ _ (
        Covers-run blake3 act hb.cluster_id hb.sequence_number es s1 w1
          (flushed-Covers s s1 i hb e counted))
