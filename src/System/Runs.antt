-- ===== src/System/Runs.antt =====
-- What every attempt keeps of the two databases, every run of the workflow keeps.
use cloud_credit_system.Common.{ℕ, zero, suc, ◌≡◌, Bool, Option, none, some, List}
use cloud_credit_system.Common.Maps.{Map}
use cloud_credit_system.Domain.Resource.{ResourceType}
use cloud_credit_system.Accounting.Signals.{HeartbeatSignal, TbBatchInput, SubmitAllocationInput}
use cloud_credit_system.Accounting.Activities.{Balances}
use cloud_credit_system.Accounting.Workflow.State.{TenantAccountingState}
use cloud_credit_system.Accounting.Workflow.Loop.{Event, run_rounds}
use cloud_credit_system.Accounting.Workflow.Keeps.{Keeps, run_rounds-Inv}
use cloud_credit_system.Ledger.TigerBeetle.{TigerBeetle}
use cloud_credit_system.Accounting.TbActivities.SubmitBatch.{submit_tb_batch}
use cloud_credit_system.Accounting.TbActivities.Allocations.{submit_allocation_transfers}
use cloud_credit_system.Db.Schema.{Database}
use cloud_credit_system.System.Postgres.{
  update_quota_snapshots, check_soft_limits, reset_soft_limit_alert_activity,
}
use cloud_credit_system.System.World.{
  Occasion, World, attempt, or_again, retry, maximum_attempts, system_activities,
}

module _ {S : Type 0} (Q : S → Database → Type 0) (occasion : ℕ → Occasion) where
  abbrev HoldsIn : World S → Type 0
  HoldsIn w = Q w.store w.db

  or_again_keeps :
      {A : Type 0} (p : Option A × World S) (again : World S → Option A × World S)
      → HoldsIn p.1
      → ((w : World S) → HoldsIn w → HoldsIn (again w).1)
      → HoldsIn (or_again p again).1
  or_again_keeps (some a, w) again q kept = q
  or_again_keeps (none, w) again q kept = kept w q

  pub retry_keeps :
      {A : Type 0} (activity : Occasion → World S → Option A × World S)
      → ((o : Occasion) (w : World S) → HoldsIn w → HoldsIn (activity o w).1)
      → (left : ℕ) (w : World S) → HoldsIn w
      → HoldsIn (retry occasion left activity w).1
  unfolding retry
  retry_keeps activity kept zero w q = q
  retry_keeps activity kept (suc left) w q =
      or_again_keeps (attempt occasion activity w) (retry occasion left activity)
        (kept (occasion w.attempts) w q) (retry_keeps activity kept left)

module _ (blake3 : List ℕ → List ℕ) (tb : TigerBeetle) (parse : ℕ → Option ℕ)
    (occasion : ℕ → Occasion) (Q : tb.Store → Database → Type 0) (t : ℕ) where
  -- What one attempt of each activity keeps.
  pub record AttemptsKeep : Type 0 where
    pub batches :
        (random : ℕ → ℕ) (range : Map ℕ HeartbeatSignal → Map ℕ HeartbeatSignal) (i : TbBatchInput)
        (s : tb.Store) (db : Database)
        → Q s db
        → Q (submit_tb_batch blake3 tb random range i s).1 db
    pub allocations :
        (random : ℕ → ℕ) (i : SubmitAllocationInput) (s : tb.Store) (db : Database)
        → Q s db
        → Q (submit_allocation_transfers tb random i s).1 db
    pub updates :
        (reaches : ℕ → Bool) (now : ℕ) (b : Balances) (s : tb.Store) (db : Database)
        → Q s db
        → Q s (update_quota_snapshots parse reaches now t b db).1
    pub checks :
        (reaches : ℕ → Bool) (now : ℕ) (b : Balances) (s : tb.Store) (db : Database)
        → Q s db
        → Q s (check_soft_limits parse reaches now t b db).1
    pub resets :
        (reaches : ℕ → Bool) (now : ℕ) (r : ResourceType) (s : tb.Store) (db : Database)
        → Q s db
        → Q s (reset_soft_limit_alert_activity parse reaches now t r db).1

  system-Keeps :
      AttemptsKeep → Keeps (system_activities blake3 tb parse occasion) (λ w. Q w.store w.db) t
  unfolding system_activities
  system-Keeps k = record {
    submits = λ i w q.
        retry_keeps Q occasion _ (λ o w q. k.batches o.random o.range i w.store w.db q)
          maximum_attempts w q;
    allocates = λ i w q.
        retry_keeps Q occasion _ (λ o w q. k.allocations o.random i w.store w.db q) maximum_attempts
          w q;
    looks_up = λ m w q. retry_keeps Q occasion _ (λ o w q. q) maximum_attempts w q;
    updates = λ b w q.
        retry_keeps Q occasion _ (λ o w q. k.updates o.reaches o.now (o.order b) w.store w.db q)
          maximum_attempts w q;
    checks = λ b w q.
        retry_keeps Q occasion _ (λ o w q. k.checks o.reaches o.now b w.store w.db q)
          maximum_attempts w q;
    resets = λ r w q.
        retry_keeps Q occasion _ (λ o w q. k.resets o.reaches o.now r w.store w.db q)
          maximum_attempts w q;
  }

  -- The world after the rounds of a workflow of tenant `t`.
  pub system_keeps :
      AttemptsKeep
      → (es : List Event) (s : TenantAccountingState) (w : World tb.Store) → s.tenant_id ≡ t
      → Q w.store w.db
      → let (s', w') = run_rounds blake3 (system_activities blake3 tb parse occasion) es s w in
        Q w'.store w'.db
  system_keeps k es s w of_t q =
      (run_rounds-Inv (system_activities blake3 tb parse occasion) (λ w. Q w.store w.db) t blake3
        (system-Keeps k) es s w (of_t, q)).1
