-- ===== src/Accounting/Pg.antt =====
-- internal/accounting/activities_pg.go: UpdateQuotaSnapshots, CheckSoftLimits and ResetSoftLimitAlert,
-- on the rows of one tenant. Their statements (sql/queries/quota.sql) only touch rows of the tenant,
-- whose resource types are unique, so a table is a map by resource type. `reaches i` tells whether the
-- i-th statement of a loop gets through; an ID that does not parse ends an activity at once.
pub mod SoftLimits
pub mod Rows
use cloud_credit_system.Common.{
  ℕ, ◌+◌, Bool, true, false, not, ◌&&◌, Option, none, some, List, [], ◌∷◌, if◌then◌else◌, ◌==◌,
}
use cloud_credit_system.Common.Int.{ℤ, ◌+ℤ◌, leb_ℤ, wrap_i64}
use cloud_credit_system.Common.Maps.{Map, lookup, insert}
use cloud_credit_system.Domain.Resource.{ResourceType, resource_key}
use cloud_credit_system.Accounting.Signals.{QuotaSnapshotData}
use cloud_credit_system.Accounting.Activities.{Balances}

-- The columns of `quota_configs` that are read or set.
pub record QuotaConfig : Type 0 where
  pub soft_limit : Option ℤ
  pub soft_limit_alert_sent : Bool

abbrev pub Configs : Type 0
Configs = Map ResourceType QuotaConfig

-- The two updates: `SET soft_limit_alert_sent = …` for one resource type.
unfoldable pub set_alert_sent : Bool → ResourceType → Configs → Configs
set_alert_sent sent r [] = []
set_alert_sent sent r ((k, cfg) ∷ rest) =
    let others = set_alert_sent sent r rest in
    if k == r then (k, record cfg { soft_limit_alert_sent = sent }) ∷ others else (k, cfg) ∷ others

-- `used >= limit` for a snapshot that is there.
abbrev pub reaches_limit : ℤ → Option QuotaSnapshotData → Bool
reaches_limit limit none = false
reaches_limit limit (some snap) = leb_ℤ limit (wrap_i64 (snap.debits_posted +ℤ snap.debits_pending))

-- The conditions of the loop: a limit, no alert yet, a snapshot, and usage at the limit.
abbrev pub over_limit : Option ℤ → Option QuotaSnapshotData → Bool
over_limit none snap = false
over_limit (some limit) snap = reaches_limit limit snap

abbrev pub crosses : Balances → ResourceType → QuotaConfig → Bool
crosses snaps r cfg = not cfg.soft_limit_alert_sent && over_limit cfg.soft_limit (lookup r snaps)

-- What an activity on the configs leaves: whether it succeeded, the resources it warned of, the table.
pub record Checked : Type 0 where
  pub success : Bool
  pub warned : List ResourceType
  pub configs : Configs

abbrev pub warn : ResourceType → Checked → Checked
warn r c = record c { warned = r ∷ c.warned }

module _ (reaches : ℕ → Bool) where
  -- The loop over the configs that were read, from index `i`, on the table.
  unfoldable pub check_from : ℕ → Balances → Configs → Configs → Checked
  check_from i snaps [] table = record { success = true; warned = []; configs = table }
  check_from i snaps ((r, cfg) ∷ rest) table =
      let next = check_from (i + 1) snaps rest (set_alert_sent true r table) in
      let skipped = check_from (i + 1) snaps rest table in
      if crosses snaps r cfg
      then warn r
          (if reaches i then next else record { success = false; warned = []; configs = table })
      else skipped

  -- CheckSoftLimits: `parsed` is whether the tenant ID parses, `listed` whether the configs were read.
  unfoldable pub check_soft_limits : Bool → Bool → Balances → Configs → Checked
  check_soft_limits parsed listed snaps table =
      if parsed && listed
      then check_from 0 snaps table table
      else record { success = false; warned = []; configs = table }

  -- The loop of UpdateQuotaSnapshots: an upsert for each balance, until one fails.
  unfoldable pub upsert_from : ℕ → Balances → Balances → Bool × Balances
  upsert_from i [] rows = (true, rows)
  upsert_from i ((r, snap) ∷ rest) rows =
      let next = upsert_from (i + 1) rest (insert r snap rows) in
      if reaches i then next else (false, rows)

  unfoldable pub update_quota_snapshots : Bool → Balances → Balances → Bool × Balances
  update_quota_snapshots parsed snaps rows =
      if parsed then upsert_from 0 snaps rows else (false, rows)

  unfoldable pub reset_soft_limit_alert : Bool → ResourceType → Configs → Bool × Configs
  reset_soft_limit_alert parsed r table =
      if parsed && reaches 0 then (true, set_alert_sent false r table) else (false, table)
