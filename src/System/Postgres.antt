-- ===== src/System/Postgres.antt =====
-- internal/accounting/activities_pg.go: one attempt of the activities of the accounting workflow, on
-- all the tables of the database. `reaches i` tells whether the i-th statement of the attempt gets through;
-- a statement that breaks a constraint is an error too, and ends the attempt.
use cloud_credit_system.Common.{
  ℕ, ◌+◌, Bool, true, false, not, ◌&&◌, Option, none, some, List, [], ◌∷◌, if◌then◌else◌,
}
use cloud_credit_system.Common.Maps.{lookup}
use cloud_credit_system.Domain.Resource.{ResourceType, resource_key}
use cloud_credit_system.Accounting.Signals.{QuotaSnapshotData}
use cloud_credit_system.Accounting.Activities.{Balances}
use cloud_credit_system.Accounting.Pg.{over_limit}
use cloud_credit_system.Db.Schema.{QuotaConfig, Database}
use cloud_credit_system.Db.Quota.{
  upsert_quota_snapshot, list_quota_configs_by_tenant, mark_soft_limit_alert_sent,
  reset_soft_limit_alert,
}

-- The conditions of the loop of CheckSoftLimits.
abbrev pub crosses : Balances → QuotaConfig → Bool
crosses snaps c =
    not c.soft_limit_alert_sent && over_limit c.soft_limit (lookup c.resource_type snaps)

-- An error ends a loop.
abbrev pub and_then : Option Database → Database → (Database → Bool × Database) → Bool × Database
and_then none db go_on = (false, db)
and_then (some db') db go_on = go_on db'

module _ (reaches : ℕ → Bool) (tenant now : ℕ) where
  -- An upsert, if it gets through.
  abbrev pub send_upsert : ℕ → ResourceType → QuotaSnapshotData → Database → Option Database
  send_upsert i r snap db =
      if reaches i
      then upsert_quota_snapshot tenant r snap.credits_total snap.debits_posted snap.debits_pending
          now db
      else none

  -- The loop of UpdateQuotaSnapshots, from its i-th statement.
  unfoldable pub upsert_all : ℕ → Balances → Database → Bool × Database
  upsert_all i [] db = (true, db)
  upsert_all i ((r, snap) ∷ rest) db =
      and_then (send_upsert i r snap db) db (upsert_all (i + 1) rest)

  -- The loop of CheckSoftLimits over the configs that were read.
  unfoldable pub mark_all : ℕ → Balances → List QuotaConfig → Database → Bool × Database
  mark_all i snaps [] db = (true, db)
  mark_all i snaps (c ∷ rest) db =
      let marked =
        mark_all (i + 1) snaps rest (mark_soft_limit_alert_sent tenant c.resource_type db) in
      let skipped = mark_all i snaps rest db in
      if crosses snaps c then (if reaches i then marked else (false, db)) else skipped

  -- The first statement reads the configs.
  unfoldable pub check_all : Balances → Database → Bool × Database
  check_all snaps db =
      if reaches 0
      then mark_all 1 snaps (list_quota_configs_by_tenant tenant db) db
      else (false, db)

  unfoldable pub reset_one : ResourceType → Database → Bool × Database
  reset_one r db = if reaches 0 then (true, reset_soft_limit_alert tenant r db) else (false, db)

-- An ID that does not parse ends the attempt.
abbrev pub for_tenant : Option ℕ → (ℕ → Database → Bool × Database) → Database → Bool × Database
for_tenant none activity db = (false, db)
for_tenant (some tenant) activity db = activity tenant db

module _ (parse : ℕ → Option ℕ) (reaches : ℕ → Bool) (now : ℕ) where
  unfoldable pub update_quota_snapshots : ℕ → Balances → Database → Bool × Database
  update_quota_snapshots text snaps =
      for_tenant (parse text) (λ tenant. upsert_all reaches tenant now 0 snaps)

  unfoldable pub check_soft_limits : ℕ → Balances → Database → Bool × Database
  check_soft_limits text snaps =
      for_tenant (parse text) (λ tenant. check_all reaches tenant now snaps)

  unfoldable pub reset_soft_limit_alert_activity : ℕ → ResourceType → Database → Bool × Database
  reset_soft_limit_alert_activity text r =
      for_tenant (parse text) (λ tenant. reset_one reaches tenant now r)
