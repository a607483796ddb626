-- ===== src/Tests/System.antt =====
-- Runs of a tenant's workflow on its own activities.
use cloud_credit_system.Common.{
  ℕ, ◌%◌, ◌≡◌, refl, not, Option, some, List, [], ◌∷◌, arith, nat_beq, nat_key, true, if◌then◌else◌,
}
use cloud_credit_system.Common.Int.{pos, u64_mod, to_i64}
use cloud_credit_system.Domain.Resource.{cpu_hours, memory_gb_hours, resource_key}
use cloud_credit_system.Ledger.TigerBeetle.{TigerBeetle}
use cloud_credit_system.Ledger.Accounts.{lookup_balances, balances_from, find_account, snapshot_of}
use cloud_credit_system.Accounting.Activities.{Balances}
use cloud_credit_system.Accounting.TbActivities.Balances.{lookup_account_balances, snapshot_data}
use cloud_credit_system.Accounting.Workflow.Flush.{project_balances}
use cloud_credit_system.Accounting.Workflow.Loop.{
  Event, heartbeat, timer, credit, history_limit, run_rounds,
}
use cloud_credit_system.Db.Isolation.{view}
use cloud_credit_system.System.Postgres.{upsert_all, update_quota_snapshots}
use cloud_credit_system.System.World.{Occasion, World, retry, system_activities}
use cloud_credit_system.System.Consequences.{system_isolated}
use cloud_credit_system.System.Projection.{stored}
use cloud_credit_system.System.Recorded.{projection_is_balances}
use cloud_credit_system.Tests.Inputs.{plain, heartbeat_of, waiting, surge_pack}
use cloud_credit_system.Tests.Bank.{account, partial}
use cloud_credit_system.Tests.Database.{two_tenants, statements}

-- IDs are texts of themselves.
abbrev as_uuid : ℕ → Option ℕ
as_uuid text = some text

-- The answer of the first attempt is lost; the statements of the second are cut off after one.
abbrev troubled : ℕ → Occasion
troubled i = record {
  random = λ n. n;
  range = λ m. m;
  order = λ b. b;
  account_order = λ m. m;
  reaches = λ n. if nat_beq i 1 then nat_beq n 0 else true;
  answered = not (nat_beq i 0);
  now = 300;
}

abbrev world_of : (tb : TigerBeetle) → tb.Store → World tb.Store
world_of tb s = record { store = s; db = two_tenants; attempts = 0 }

abbrev events : List Event
events = heartbeat (heartbeat_of 5 6) ∷ timer ∷ credit surge_pack ∷ history_limit ∷ []

system_isolated_example :
    view 2
      (run_rounds plain
        (system_activities plain partial as_uuid troubled)
        events
        waiting
        (world_of partial 0)).1.db
    ≡ view 2 two_tenants
system_isolated_example =
    system_isolated plain partial as_uuid troubled events waiting (world_of partial 0) 1 refl 2
      (λ e. omega (arith, e))

-- The balances of the two accounts that the ledger knows.
abbrev found : Balances
found =
    (cpu_hours, record { credits_total = pos 100; debits_posted = pos 7; debits_pending = pos 0 })
    ∷ (
      memory_gb_hours,
      record { credits_total = pos 200; debits_posted = pos 7; debits_pending = pos 0 },
    )
    ∷ []

-- The definitions that a projection computes with.
projection : Unit {0}
unfolding statements system_activities retry lookup_account_balances lookup_balances snapshot_data
    balances_from find_account snapshot_of update_quota_snapshots upsert_all
projection = tt

projection_is_balances_example :
    let w' =
      project_balances plain
        (system_activities plain partial as_uuid troubled)
        waiting
        (world_of partial 0) in
    (w'.store ≡ 0)
    × (stored 1 memory_gb_hours w'.db
        ≡ some (record {
          credits_total = to_i64 (200 % u64_mod);
          debits_posted = to_i64 (7 % u64_mod);
          debits_pending = to_i64 (0 % u64_mod);
        }))
unfolding projection
projection_is_balances_example =
    projection_is_balances plain partial as_uuid troubled (λ n b u. (u, λ r. refl)) waiting 1
      (world_of partial 0) found memory_gb_hours 12 (account 11 100 ∷ []) [] (account 12 200) refl
      (refl, (refl, (refl, tt))) refl refl (λ e. omega (arith, e), tt) refl refl refl
