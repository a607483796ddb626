-- ===== src/Accounting/Workflow/Timer.antt =====
-- The adaptive flush interval, and the size of the batch.
use cloud_credit_system.Common.{
  ℕ, zero, suc, ◌≤◌, ◌≡◌, refl, ap, List, [], ◌∷◌, arith, nat_key, Result, ok, err, ◌∙◌,
}
use cloud_credit_system.Accounting.Signals.{HeartbeatSignal, QuotaAdjustmentSignal}
use cloud_credit_system.Accounting.Activities.{Activities}
use cloud_credit_system.Accounting.Workflow.State.{
  TenantAccountingState, TenantAccountingInput, base_flush_interval, max_flush_interval, start,
}
use cloud_credit_system.Accounting.Workflow.Flush.{WorkflowError, flush_unless_empty, flush_batch}
use cloud_credit_system.Accounting.Workflow.Loop.{
  Event, heartbeat, register, timer, credit, history_limit, doubled, receive_register,
  receive_heartbeat, accept_heartbeat, timer_fired, issue_credit, continue_as_new, step, run_rounds,
}
use cloud_credit_system.Accounting.Workflow.FlushOutcome.{FlushOutcome, flush_batch-FlushOutcome}

-- The next timer lies between the base interval and the cap.
pub record HasInterval (s : TenantAccountingState) : Type 0 where
  pub at_least : base_flush_interval ≤ s.current_flush_interval
  pub at_most : s.current_flush_interval ≤ max_flush_interval

abbrev pub replicate {ℓ} : {A : Type ℓ} → ℕ → A → List A
replicate zero a = []
replicate (suc n) a = a ∷ replicate n a

-- The interval after `k` idle cycles: doubled each time, up to the cap.
abbrev pub backed_off : ℕ → ℕ → ℕ
backed_off zero d = d
backed_off (suc k) d = backed_off k (doubled d)

interval-outcome :
    (s s' : TenantAccountingState) (r : Result WorkflowError (Unit {0}))
    → FlushOutcome s r s'
    → s'.current_flush_interval ≡ s.current_flush_interval
interval-outcome s s' (ok _) h = h.interval
interval-outcome s s' (err _) h = ap (λ (t : TenantAccountingState). t.current_flush_interval) h

module _ (blake3 : List ℕ → List ℕ) {W : Type 0} (act : Activities W) where
  interval-flush :
      (s : TenantAccountingState) (w : W)
      → (flush_batch blake3 act s w).1.current_flush_interval ≡ s.current_flush_interval
  interval-flush s w = interval-outcome s _ _ (flush_batch-FlushOutcome blake3 act s w)

  timer_fired-HasInterval :
      (s : TenantAccountingState) (w : W)
      → HasInterval s
      → HasInterval (timer_fired blake3 act s w).0
  unfolding timer_fired
  timer_fired-HasInterval s w h = ground (arith, interval-flush s w)

  receive_heartbeat-HasInterval :
      (sig : HeartbeatSignal) (s : TenantAccountingState) (w : W)
      → HasInterval s
      → HasInterval (receive_heartbeat blake3 act sig s w).0
  unfolding receive_heartbeat accept_heartbeat
  receive_heartbeat-HasInterval sig s w h = ground arith

  issue_credit-HasInterval :
      (sig : QuotaAdjustmentSignal) (s : TenantAccountingState) (w : W)
      → HasInterval s
      → HasInterval (issue_credit blake3 act sig s w).1
  unfolding issue_credit
  issue_credit-HasInterval sig s w h = ground arith

  step-HasInterval :
      (e : Event) (s : TenantAccountingState) (w : W)
      → HasInterval s
      → HasInterval (step blake3 act e s w).0
  unfolding step continue_as_new start receive_register
  step-HasInterval (heartbeat sig) s w h = receive_heartbeat-HasInterval sig s w h
  step-HasInterval (register sig) s w h = ground arith
  step-HasInterval timer s w h = timer_fired-HasInterval s w h
  step-HasInterval (credit sig) s w h = issue_credit-HasInterval sig s w h
  step-HasInterval history_limit s w h = ground arith

  run-keeps :
      (es : List Event) (s : TenantAccountingState) (w : W)
      → HasInterval s
      → HasInterval (run_rounds blake3 act es s w).0
  unfolding run_rounds
  run-keeps [] s w h = h
  run-keeps (e ∷ es) s w h =
      let (s', w') = step blake3 act e s w in run-keeps es s' w' (step-HasInterval e s w h)

  timer_idle :
      (s : TenantAccountingState) (w : W)
      → s.cur_batch ≡ []
      → timer_fired blake3 act s w
        ≡ (record s { current_flush_interval = doubled s.current_flush_interval }, w)
  unfolding timer_fired flush_batch flush_unless_empty
  timer_idle s w e = ground arith

  -- With no heartbeat the workflow stays idle: `k` timers in a row call no activity, leave the state
  -- as it is but for the interval, and double that each time up to the cap.
  pub idle_backs_off :
      (k : ℕ) (s : TenantAccountingState) (w : W)
      → s.cur_batch ≡ []
      → run_rounds blake3 act (replicate k timer) s w
        ≡ (record s { current_flush_interval = backed_off k s.current_flush_interval }, w)
  unfolding run_rounds step
  idle_backs_off zero s w e = refl
  idle_backs_off (suc k) s w e =
      ap (λ (p : TenantAccountingState × W). run_rounds blake3 act (replicate k timer) p.0 p.1)
        (timer_idle s w e)
      ∙ (idle_backs_off k (record s { current_flush_interval = doubled s.current_flush_interval }) w
          e)

  start-HasInterval : (i : TenantAccountingInput) → HasInterval (start i)
  unfolding start
  start-HasInterval i = omega arith

  -- In every run of the workflow, from any input and through any rounds, the flush interval stays
  -- between 2 and 60 seconds.
  pub interval_in_bounds :
      (i : TenantAccountingInput) (es : List Event) (w : W)
      → HasInterval (run_rounds blake3 act es (start i) w).0
  interval_in_bounds i es w = run-keeps es (start i) w (start-HasInterval i)
