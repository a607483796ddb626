-- ===== src/Accounting/Pg/Rows.antt =====
-- internal/accounting/activities_pg.go: the activities that insert or update rows, on the tables of
-- sql/migrations/001_initial.sql and with the statements of sql/queries. An ID that does not parse ends
-- an activity at once: `parse` is the parser, and texts are numbers.
pub mod Retry
use cloud_credit_system.Common.{
  ℕ, suc, ◌+◌, Bool, true, false, Option, none, some, List, [], ◌∷◌, ◌++◌, nat_key, nat_beq,
  if◌then◌else◌,
}
use mathlib.Core.Option
use cloud_credit_system.Common.Int.{ℤ}
use cloud_credit_system.Common.Maps.{Map, lookup, insert}
use cloud_credit_system.Domain.Resource.{ResourceType, resource_key}

-- What `status` can be set to, of tenants and of clusters.
pub data RowStatus : Type 0 where
  active healthy deregistered : RowStatus
  other_status : ℕ → RowStatus

pub record TenantRecord : Type 0 where
  pub name : ℕ
  pub billing_tier : ℕ
  pub status : RowStatus
  pub deleted_at : Option ℕ

pub record ClusterRecord : Type 0 where
  pub tenant_id : ℕ
  pub cloud_provider : ℕ
  pub region : ℕ
  pub status : RowStatus
  pub deregistered_at : Option ℕ

pub record AdjustmentRecord : Type 0 where
  pub tenant_id : ℕ
  pub resource_type : ResourceType
  pub amount : ℤ
  pub reason : Option ℕ
  pub tb_transfer_id : ℕ

-- The tables by their primary keys; `accounts` holds the rows of tb_account_ids whose account type is
-- tenant_quota, by tenant.
pub record Tables : Type 0 where
  pub tenants : Map ℕ TenantRecord
  pub clusters : Map ℕ ClusterRecord
  pub accounts : Map ℕ (Map ResourceType ℕ)
  pub adjustments : List AdjustmentRecord

-- INSERT without ON CONFLICT: a key that is there is an error.
abbrev pub insert_new : {V : Type 0} → ℕ → V → Map ℕ V → Option (Map ℕ V)
insert_new key row table = elim (lookup key table) [
  | none ↦ some (insert key row table)
  | some _ ↦ none
]

-- ON CONFLICT DO NOTHING.
unfoldable pub insert_absent : ResourceType → ℕ → Map ResourceType ℕ → Map ResourceType ℕ
insert_absent r id rows = elim (lookup r rows) [ none ↦ insert r id rows | some _ ↦ rows ]

-- UPDATE … WHERE id = …: no row is no error.
abbrev pub update_row : {V : Type 0} → ℕ → (V → V) → Map ℕ V → Map ℕ V
update_row key change table = elim (lookup key table) [
  | none ↦ table
  | some row ↦ insert key (change row) table
]

abbrev pub rows_of : Option (Map ResourceType ℕ) → Map ResourceType ℕ
rows_of none = []
rows_of (some rows) = rows

module _ (parse : ℕ → Option ℕ) where
  -- The effect of an activity's statements, where they get through; `none` is an error.
  unfoldable pub insert_tenant : ℕ → ℕ → ℕ → Tables → Option Tables
  insert_tenant tenant name tier db = elim (parse tenant) [
    | none ↦ none
    | some id ↦
        Option.map (λ (rows : Map ℕ TenantRecord). record db { tenants = rows })
          (insert_new id
            (record { name = name; billing_tier = tier; status = active; deleted_at = none })
            db.tenants)
  ]

  -- The tenant of a cluster must be a row of tenants.
  unfoldable pub insert_cluster : ℕ → ℕ → ℕ → ℕ → Tables → Option Tables
  insert_cluster cluster tenant provider region db = elim (parse cluster) [
    | none ↦ none
    | some id ↦ elim (parse tenant) [
      | none ↦ none
      | some owner ↦ elim (lookup owner db.tenants) [
        | none ↦ none
        | some _ ↦
            Option.map (λ (rows : Map ℕ ClusterRecord). record db { clusters = rows })
              (insert_new id
                (record {
                  tenant_id = owner;
                  cloud_provider = provider;
                  region = region;
                  status = healthy;
                  deregistered_at = none;
                })
                db.clusters)
      ]
    ]
  ]

  -- InsertCreditAdjustment: an empty reason, 0, is NULL.
  unfoldable pub insert_credit_adjustment : ℕ → ResourceType → ℤ → ℕ → ℕ → Tables → Option Tables
  insert_credit_adjustment tenant r amount reason transfer db = elim (parse tenant) [
    | none ↦ none
    | some id ↦ some (record db {
      adjustments =
          db.adjustments
          ++ (record {
            tenant_id = id;
            resource_type = r;
            amount = amount;
            reason = if nat_beq reason 0 then none else some reason;
            tb_transfer_id = transfer;
          }
              ∷ []);
    })
  ]

  unfoldable pub update_cluster_status : ℕ → RowStatus → Tables → Option Tables
  update_cluster_status cluster status db = elim (parse cluster) [
    | none ↦ none
    | some id ↦ some (record db {
      clusters =
          update_row id (λ (row : ClusterRecord). record row { status = status }) db.clusters;
    })
  ]

  unfoldable pub deregister_cluster_row : ℕ → ℕ → Tables → Option Tables
  deregister_cluster_row cluster now db = elim (parse cluster) [
    | none ↦ none
    | some id ↦ some (record db {
      clusters =
          update_row id
            (λ (row : ClusterRecord). record row {
              status = deregistered;
              deregistered_at = some now;
            })
            db.clusters;
    })
  ]

  unfoldable pub delete_tenant_row : ℕ → ℕ → Tables → Option Tables
  delete_tenant_row tenant now db = elim (parse tenant) [
    | none ↦ none
    | some id ↦ some (record db {
      tenants =
          update_row id
            (λ (row : TenantRecord). record row { status = deregistered; deleted_at = some now })
            db.tenants;
    })
  ]

-- The loop of InsertTBAccountMapping from its i-th statement; `reaches i` tells whether that statement
-- gets through. The first that does not ends the activity.
unfoldable pub insert_mappings :
    (ℕ → Bool) → ℕ → Map ResourceType ℕ → Map ResourceType ℕ → Bool × Map ResourceType ℕ
insert_mappings reaches i [] rows = (true, rows)
insert_mappings reaches i ((r, id) ∷ rest) rows =
    let go_on = insert_mappings reaches (i + 1) rest (insert_absent r id rows) in
    if reaches i then go_on else (false, rows)

module _ (parse : ℕ → Option ℕ) where
  unfoldable pub insert_tb_account_mapping :
      (ℕ → Bool) → ℕ → Map ResourceType ℕ → Tables → Bool × Tables
  insert_tb_account_mapping reaches tenant mapping db = elim (parse tenant) [
    | none ↦ (false, db)
    | some id ↦
        let (done, rows) = insert_mappings reaches 0 mapping (rows_of (lookup id db.accounts)) in
        (done, record db { accounts = insert id rows db.accounts })
  ]
