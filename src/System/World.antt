-- ===== src/System/World.antt =====
-- The activities of the accounting workflow as Temporal executes them: up to five attempts, each of which
-- may be cut off at any statement, or end without its answer reaching Temporal.
use cloud_credit_system.Common.{
  ℕ, zero, suc, ◌+◌, Bool, true, false, Option, none, some, List, Result, ok, err, if◌then◌else◌,
}
use cloud_credit_system.Common.Maps.{Map}
use cloud_credit_system.Domain.Resource.{ResourceType}
use cloud_credit_system.Accounting.Signals.{HeartbeatSignal}
use cloud_credit_system.Accounting.Activities.{Activities, Balances}
use cloud_credit_system.Ledger.TigerBeetle.{TigerBeetle}
use cloud_credit_system.Accounting.TbActivities.SubmitBatch.{submit_tb_batch}
use cloud_credit_system.Accounting.TbActivities.Allocations.{submit_allocation_transfers}
use cloud_credit_system.Accounting.TbActivities.Balances.{lookup_account_balances}
use cloud_credit_system.Db.Schema.{Database}
use cloud_credit_system.System.Postgres.{
  update_quota_snapshots, check_soft_limits, reset_soft_limit_alert_activity,
}

-- `MaximumAttempts`
abbrev pub maximum_attempts : ℕ
maximum_attempts = 5

-- What an attempt meets: its draws of RandomID, the orders in which it ranges over maps, the statements that
-- get through, whether its answer reaches Temporal, and the time.
pub record Occasion : Type 0 where
  pub random : ℕ → ℕ
  pub range : Map ℕ HeartbeatSignal → Map ℕ HeartbeatSignal
  pub order : Balances → Balances
  pub account_order : Map ResourceType ℕ → Map ResourceType ℕ
  pub reaches : ℕ → Bool
  pub answered : Bool
  pub now : ℕ

-- The two databases, and the number of attempts so far.
pub record World (S : Type 0) : Type 0 where
  pub store : S
  pub db : Database
  pub attempts : ℕ

abbrev pub done : Bool → Option (Unit {0})
done true = some tt
done false = none

abbrev pub succeeded : Option (Unit {0}) → Bool
succeeded none = false
succeeded (some u) = true

abbrev pub value_of : {E A : Type 0} → Result E A → Option A
value_of (ok a) = some a
value_of (err e) = none

-- An attempt without a value is followed by another one.
abbrev pub or_again : {A W : Type 0} → Option A × W → (W → Option A × W) → Option A × W
or_again (some a, w) again = (some a, w)
or_again (none, w) again = again w

module _ {S : Type 0} (occasion : ℕ → Occasion) where
  -- One attempt, on its occasion.
  abbrev pub attempt :
      {A : Type 0} → (Occasion → World S → Option A × World S) → World S → Option A × World S
  attempt activity w =
      let o = occasion w.attempts in
      let (r, w') = activity o w in
      (if o.answered then r else none, record w' { attempts = w.attempts + 1 })

  unfoldable pub retry :
      {A : Type 0} → ℕ → (Occasion → World S → Option A × World S) → World S → Option A × World S
  retry zero activity w = (none, w)
  retry (suc left) activity w = or_again (attempt activity w) (retry left activity)

-- An attempt on one of the databases.
abbrev pub on_store : {S A : Type 0} → (S → Option A × S) → World S → Option A × World S
on_store f w = let (r, s') = f w.store in (r, record w { store = s' })

abbrev pub on_db :
    {S : Type 0} → (Database → Bool × Database) → World S → Option (Unit {0}) × World S
on_db f w = let (r, db') = f w.db in (done r, record w { db = db' })

module _ (blake3 : List ℕ → List ℕ) (tb : TigerBeetle) (parse : ℕ → Option ℕ)
    (occasion : ℕ → Occasion) where
  open tb use {Store}

  abbrev pub executed :
      {A : Type 0}
      → (Occasion → World Store → Option A × World Store)
      → World Store
      → Option A × World Store
  executed = retry occasion maximum_attempts

  unfoldable pub system_activities : Activities (World Store)
  system_activities = record {
    submit_tb_batch = λ i. executed (λ o.
        on_store
          (λ s. let (r, s') = submit_tb_batch blake3 tb o.random o.range i s in (value_of r, s')));
    submit_allocation_transfers = λ i w.
        let (r, w') =
          executed
            (λ o.
              on_store (λ s.
                let (r, s') = submit_allocation_transfers tb o.random i s in (value_of r, s')))
            w in
        (succeeded r, w');
    lookup_account_balances =
        λ m. executed (λ o. on_store (λ s. (value_of (lookup_account_balances tb m s), s)));
    update_quota_snapshots = λ t b w.
        let (r, w') =
          executed (λ o. on_db (update_quota_snapshots parse o.reaches o.now t (o.order b))) w in
        (succeeded r, w');
    check_soft_limits = λ t b w.
        let (r, w') = executed (λ o. on_db (check_soft_limits parse o.reaches o.now t b)) w in
        (succeeded r, w');
    reset_soft_limit_alert = λ t r w.
        let (done_r, w') =
          executed (λ o. on_db (reset_soft_limit_alert_activity parse o.reaches o.now t r)) w in
        (succeeded done_r, w');
  }
