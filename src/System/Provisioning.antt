-- ===== src/System/Provisioning.antt =====
-- The activities of the provisioning workflows (internal/accounting/activities_pg.go and activities_tb.go) as
-- Temporal executes them: each with up to five attempts, on TigerBeetle and PostgreSQL.
use cloud_credit_system.Common.{
  ℕ, ◌+◌, Bool, true, false, Option, none, some, [], ◌∷◌, if◌then◌else◌,
}
use cloud_credit_system.Common.Maps.{Map}
use cloud_credit_system.Domain.Resource.{ResourceType}
use cloud_credit_system.Domain.Codes.{tenant_quota}
use cloud_credit_system.Accounting.Signals.{RegisterClusterSignal}
use cloud_credit_system.Accounting.Workflow.State.{TenantAccountingInput}
use cloud_credit_system.Accounting.Provisioning.{
  RegisterClusterWorkflowInput, ChildStart, ProvisioningActivities,
}
use cloud_credit_system.Accounting.TbActivities.Allocations.{submit_allocation_transfers}
use cloud_credit_system.Accounting.TbActivities.Balances.{create_tenant_tb_accounts}
use cloud_credit_system.Ledger.TigerBeetle.{TigerBeetle}
use cloud_credit_system.Db.Schema.{Database}
use cloud_credit_system.Db.Tenants.{insert_tenant}
use cloud_credit_system.Db.Clusters.{insert_cluster}
use cloud_credit_system.Db.Quota.{insert_tb_account_mapping}
use cloud_credit_system.System.Postgres.{and_then, for_tenant}
use cloud_credit_system.System.World.{
  Occasion, World, maximum_attempts, retry, value_of, succeeded, on_store, on_db,
}

-- An activity of one statement.
abbrev pub commit : Option Database → Database → Bool × Database
commit none db = (false, db)
commit (some db') db = (true, db')

module _ (reaches : ℕ → Bool) (tenant now : ℕ) where
  unfoldable pub add_tenant : (name tier : ℕ) → Database → Bool × Database
  add_tenant name tier db =
      commit (if reaches 0 then insert_tenant tenant name tier now db else none) db

  -- An account of the map, if its statement gets through.
  abbrev pub send_mapping : ℕ → ResourceType → ℕ → Database → Option Database
  send_mapping i r account db =
      if reaches i then insert_tb_account_mapping tenant r tenant_quota account now db else none

  -- The loop of InsertTBAccountMapping, from its i-th statement.
  unfoldable pub map_all : ℕ → Map ResourceType ℕ → Database → Bool × Database
  map_all i [] db = (true, db)
  map_all i ((r, account) ∷ rest) db =
      and_then (send_mapping i r account db) db (map_all (i + 1) rest)

  unfoldable pub add_cluster : (cluster provider region : ℕ) → Database → Bool × Database
  add_cluster cluster provider region db =
      commit (if reaches 0 then insert_cluster cluster tenant provider region now db else none) db

module _ (parse : ℕ → Option ℕ) (reaches : ℕ → Bool) (now : ℕ) where
  unfoldable pub insert_tenant_activity : (text name tier : ℕ) → Database → Bool × Database
  insert_tenant_activity text name tier =
      for_tenant (parse text) (λ tenant. add_tenant reaches tenant now name tier)

  unfoldable pub insert_tb_account_mapping_activity :
      ℕ → Map ResourceType ℕ → Database → Bool × Database
  insert_tb_account_mapping_activity text accounts =
      for_tenant (parse text) (λ tenant. map_all reaches tenant now 0 accounts)

  -- The ID of the cluster is parsed first.
  unfoldable pub insert_cluster_activity : RegisterClusterWorkflowInput → Database → Bool × Database
  insert_cluster_activity input = for_tenant (parse input.cluster_id) (λ cluster.
      for_tenant (parse input.tenant_id)
        (λ tenant. add_cluster reaches tenant now cluster input.cloud_provider input.region))

-- `start` and `signal` are the answers of Temporal, which change neither database.
module _ (tb : TigerBeetle) (parse : ℕ → Option ℕ) (occasion : ℕ → Occasion) where
  open tb use {Store}

  module _ (start : TenantAccountingInput → World Store → ChildStart)
      (signal : ℕ → RegisterClusterSignal → World Store → Bool) where
    -- A call of an activity that only tells whether it succeeded.
    abbrev pub called :
        (Occasion → World Store → Option (Unit {0}) × World Store)
        → World Store
        → Bool × World Store
    called activity w =
        let (r, w') = retry occasion maximum_attempts activity w in (succeeded r, w')

    unfoldable pub system_provisioning : ProvisioningActivities (World Store)
    system_provisioning = record {
      insert_tenant = λ t name tier.
          called (λ o. on_db (insert_tenant_activity parse o.reaches o.now t name tier));
      create_tenant_tb_accounts = λ uuid. retry occasion maximum_attempts (λ o.
          on_store
            (λ s. let (r, s') = create_tenant_tb_accounts tb o.random uuid s in (value_of r, s')));
      insert_tb_account_mapping = λ t m. called (λ o.
          on_db (insert_tb_account_mapping_activity parse o.reaches o.now t (o.account_order m)));
      submit_allocation_transfers = λ i. called (λ o.
          on_store
            (λ s. let (r, s') = submit_allocation_transfers tb o.random i s in (value_of r, s')));
      start_accounting = λ i w. (start i w, w);
      insert_cluster = λ i. called (λ o. on_db (insert_cluster_activity parse o.reaches o.now i));
      signal_register_cluster = λ t sig w. (signal t sig w, w);
    }
