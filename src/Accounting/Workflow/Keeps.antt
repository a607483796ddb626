-- ===== src/Accounting/Workflow/Keeps.antt =====
-- What the activities keep of their world, every run of the workflow keeps. The activities that write
-- rows are called for the tenant of the workflow only.
use cloud_credit_system.Common.{
  ℕ, ◌≡◌, ap, ◌∙◌, inl, inr, Option, none, some, List, [], ◌∷◌, ◌++◌, length, leb, Bool-cases,
  Option-cases, nat_key,
}
use cloud_credit_system.Common.Maps.{Map, lookup}
use cloud_credit_system.Domain.Resource.{ResourceType, ledger_id}
use cloud_credit_system.Accounting.Signals.{
  HeartbeatSignal, QuotaAdjustmentSignal, TbBatchInput, TbBatchResult, SubmitAllocationInput,
}
use cloud_credit_system.Accounting.Activities.{Activities, Balances}
use cloud_credit_system.Accounting.Workflow.State.{
  TenantAccountingState, absorb, start, carry, advances, batch_size_threshold,
}
use cloud_credit_system.Accounting.Workflow.Flush.{
  next_flush, batch_input, allocation_input, project_balances, finish_flush, submit_flush,
  flush_unless_empty, flush_batch, finish_adjustment, flush_adjustment,
}
use cloud_credit_system.Accounting.Workflow.Loop.{
  receive_register, validate, Event, heartbeat, register, timer, credit, history_limit,
  accept_heartbeat, receive_heartbeat, timer_fired, issue_credit, continue_as_new, step, run_rounds,
}
use cloud_credit_system.Accounting.Workflow.FlushOutcome.{mark_processed-keeps}

tenant-absorb :
    (result : TbBatchResult) (s : TenantAccountingState) → (absorb result s).tenant_id ≡ s.tenant_id
unfolding absorb
tenant-absorb result s =
    ap (λ (s' : TenantAccountingState). s'.tenant_id) (mark_processed-keeps s.cur_batch _)

module _ {W : Type 0} (act : Activities W) (P : W → Type 0) (t : ℕ) where
  pub record Keeps : Type 0 where
    pub submits : (i : TbBatchInput) (w : W) → P w → P (act.submit_tb_batch i w).1
    pub allocates :
        (i : SubmitAllocationInput) (w : W) → P w → P (act.submit_allocation_transfers i w).1
    pub looks_up : (m : Map ResourceType ℕ) (w : W) → P w → P (act.lookup_account_balances m w).1
    pub updates : (b : Balances) (w : W) → P w → P (act.update_quota_snapshots t b w).1
    pub checks : (b : Balances) (w : W) → P w → P (act.check_soft_limits t b w).1
    pub resets : (r : ResourceType) (w : W) → P w → P (act.reset_soft_limit_alert t r w).1

  -- The tenant of the state, and the world.
  abbrev pub Inv : TenantAccountingState → W → Type 0
  Inv s w = (s.tenant_id ≡ t) × P w

  module _ (blake3 : List ℕ → List ℕ) (keeps : Keeps) where
    project_balances-Inv :
        (s : TenantAccountingState) (w : W) → Inv s w → P (project_balances blake3 act s w)
    unfolding project_balances
    project_balances-Inv s w (of_t, p) =
        projected (act.lookup_account_balances s.account_map w) (keeps.looks_up s.account_map w p)
      where
        projected :
            (a : Option Balances × W)
            → P a.1
            → P (elim a.0 [
              | none ↦ a.1
              | some b ↦
                  let (updated, w2) = act.update_quota_snapshots s.tenant_id b a.1 in
                  let (checked, w3) = act.check_soft_limits s.tenant_id b w2 in w3
            ])
        projected (none, w1) q = q
        projected (some b, w1) q =
            rw of_t (keeps.checks b (act.update_quota_snapshots t b w1).1 (keeps.updates b w1 q))

    flush_batch-Inv :
        (s : TenantAccountingState) (w : W)
        → Inv s w
        → let (_, s', w') = flush_batch blake3 act s w in Inv s' w'
    unfolding flush_batch flush_unless_empty submit_flush finish_flush
    flush_batch-Inv s w (of_t, p) = go s.cur_batch
      where
        finished :
            (a : Option TbBatchResult × W)
            → P a.1
            → let (_, s', w') = finish_flush blake3 act (next_flush s) a.0 a.1 in Inv s' w'
        finished (none, w1) q = (of_t, q)
        finished (some result, w1) q =
            let same : (absorb result (next_flush s)).tenant_id ≡ t =
              tenant-absorb result (next_flush s) ∙ of_t in
            (same, project_balances-Inv (absorb result (next_flush s)) w1 (same, q))

        go :
            (b : List HeartbeatSignal)
            → let (_, s', w') = flush_unless_empty blake3 act b s w in Inv s' w'
        go [] = (of_t, p)
        go (hb ∷ hbs) =
            finished (act.submit_tb_batch (batch_input blake3 (next_flush s)) w)
              (keeps.submits (batch_input blake3 (next_flush s)) w p)

    finish_adjustment-Inv :
        (s : TenantAccountingState) (sig : QuotaAdjustmentSignal) (w : W)
        → Inv s w
        → let (_, s', w') = finish_adjustment blake3 act s sig w in Inv s' w'
    unfolding finish_adjustment
    finish_adjustment-Inv s sig w (of_t, p) =
        let w1 = (act.lookup_account_balances s.account_map w).1 in
        let q = keeps.looks_up s.account_map w p in
        elim (Option-cases (act.lookup_account_balances s.account_map w).0) [
          | inl e ↦ rw (e, finish_adjustment) (of_t, q)
          | inr (b, e) ↦
              rw (e, finish_adjustment)
                (
                  of_t,
                  rw of_t (
                      keeps.resets sig.resource_type (act.update_quota_snapshots t b w1).1
                        (keeps.updates b w1 q)),
                )
        ]

    flush_adjustment-Inv :
        (s : TenantAccountingState) (sig : QuotaAdjustmentSignal) (w : W)
        → Inv s w
        → let (_, s', w') = flush_adjustment blake3 act s sig w in Inv s' w'
    unfolding flush_adjustment
    flush_adjustment-Inv s0 sig w (of_t, p) =
        let s = next_flush s0 in
        elim (Option-cases (ledger_id sig.resource_type)) [
          | inl e ↦ rw (e, flush_adjustment) (of_t, p)
          | inr (ledger, e) ↦
              let input = allocation_input blake3 s sig ledger in
              let q = keeps.allocates input w p in
              let w1 = (act.submit_allocation_transfers input w).1 in
              elim (Bool-cases (act.submit_allocation_transfers input w).0) [
                | inl done ↦
                    rw (e, flush_adjustment, done) (finish_adjustment-Inv s sig w1 (of_t, q))
                | inr failed ↦ rw (e, flush_adjustment, failed) (of_t, q)
              ]
        ]

    receive_heartbeat-Inv :
        (sig : HeartbeatSignal) (s : TenantAccountingState) (w : W)
        → Inv s w
        → let (s', w') = receive_heartbeat blake3 act sig s w in Inv s' w'
    unfolding receive_heartbeat accept_heartbeat
    receive_heartbeat-Inv sig s w inv =
        let s1 = record s { cur_batch = s.cur_batch ++ (sig ∷ []) } in
        let flushed = flush_batch-Inv s1 w inv in
        elim (Bool-cases (advances (lookup sig.cluster_id s.processed_seqs) sig.sequence_number)) [
          | inr old ↦ rw old inv
          | inl new ↦ elim (Bool-cases (leb batch_size_threshold (length s1.cur_batch))) [
            | inl full ↦ rw (new, full) flushed
            | inr room ↦ rw (new, room) inv
          ]
        ]

    issue_credit-Inv :
        (sig : QuotaAdjustmentSignal) (s : TenantAccountingState) (w : W)
        → Inv s w
        → let (_, s', w') = issue_credit blake3 act sig s w in Inv s' w'
    unfolding issue_credit
    issue_credit-Inv sig s w inv = elim (Option-cases (validate sig s)) [
      | inr (why, e) ↦ rw (e, issue_credit) inv
      | inl e ↦ rw (e, issue_credit) (flush_adjustment-Inv s sig w inv)
    ]

    step-Inv :
        (e : Event) (s : TenantAccountingState) (w : W)
        → Inv s w
        → let (s', w') = step blake3 act e s w in Inv s' w'
    unfolding step receive_register timer_fired continue_as_new start carry
    step-Inv (heartbeat sig) s w inv = receive_heartbeat-Inv sig s w inv
    step-Inv (register sig) s w inv = elim (Option-cases (lookup sig.cluster_id s.processed_seqs)) [
      | inl e ↦ rw (e, receive_register) inv
      | inr (n, e) ↦ rw (e, receive_register) inv
    ]
    step-Inv timer s w inv = flush_batch-Inv s w inv
    step-Inv (credit sig) s w inv = issue_credit-Inv sig s w inv
    step-Inv history_limit s w inv = flush_batch-Inv s w inv

    pub run_rounds-Inv :
        (es : List Event) (s : TenantAccountingState) (w : W)
        → Inv s w
        → let (s', w') = run_rounds blake3 act es s w in Inv s' w'
    unfolding run_rounds
    run_rounds-Inv [] s w inv = inv
    run_rounds-Inv (e ∷ es) s w inv =
        let (s', w') = step blake3 act e s w in run_rounds-Inv es s' w' (step-Inv e s w inv)
