-- ===== src/Db/Quota.antt =====
-- internal/db/sqlcgen/quota.sql.go.
use cloud_credit_system.Common.{
  ℕ, Bool, true, false, not, ◌&&◌, ◌||◌, Option, none, some, List, [], ◌∷◌, ◌++◌, nat_beq, ltb,
  if◌then◌else◌,
}
use mathlib.Core.Option
use cloud_credit_system.Common.Int.{ℤ, pos}
use cloud_credit_system.Domain.Resource.{ResourceType, resource_beq}
use cloud_credit_system.Domain.Codes.{AccountType, type_beq}
use cloud_credit_system.Db.Table.{
  select, select_one, exists, update_where, insert_or_keep, insert_or_update, order_by,
}
use cloud_credit_system.Db.Schema.{
  monthly, QuotaConfig, TbAccountId, TbGlobalAccountId, QuotaSnapshot, CreditAdjustment, Database,
  account_type_allowed, global_type_allowed,
}
use cloud_credit_system.Db.Tenants.{is_tenant}

-- The rows of a tenant and a resource type, in the two tables that they are a key of.
abbrev pub is_snapshot : ℕ → ResourceType → QuotaSnapshot → Bool
is_snapshot tenant r s = nat_beq s.tenant_id tenant && resource_beq s.resource_type r

abbrev pub is_config : ℕ → ResourceType → QuotaConfig → Bool
is_config tenant r c = nat_beq c.tenant_id tenant && resource_beq c.resource_type r

abbrev pub is_global : ResourceType → AccountType → TbGlobalAccountId → Bool
is_global r t a = resource_beq a.resource_type r && type_beq a.account_type t

abbrev pub is_account : ℕ → ResourceType → AccountType → TbAccountId → Bool
is_account tenant r t a =
    nat_beq a.tenant_id tenant && (resource_beq a.resource_type r && type_beq a.account_type t)

-- ORDER BY tenant_id, resource_type: `text_before` is the order of the database on texts.
unfoldable pub get_all_quota_snapshots :
    (ResourceType → ResourceType → Bool) → Database → List QuotaSnapshot
get_all_quota_snapshots text_before db =
    order_by
      (λ (a : QuotaSnapshot) (b : QuotaSnapshot).
        ltb a.tenant_id b.tenant_id
        || (nat_beq a.tenant_id b.tenant_id && text_before a.resource_type b.resource_type))
      db.quota_snapshots

unfoldable pub get_global_tb_account : ResourceType → AccountType → Database → Option ℕ
get_global_tb_account r t db =
    Option.map (λ (a : TbGlobalAccountId). a.tb_account_id)
      (select_one (is_global r t) db.tb_global_account_ids)

unfoldable pub get_global_tb_accounts : Database → List TbGlobalAccountId
get_global_tb_accounts db = db.tb_global_account_ids

unfoldable pub get_quota_snapshots : ℕ → Database → List QuotaSnapshot
get_quota_snapshots tenant db =
    select (λ (s : QuotaSnapshot). nat_beq s.tenant_id tenant) db.quota_snapshots

unfoldable pub get_tb_account_ids : ℕ → Database → List TbAccountId
get_tb_account_ids tenant db =
    select (λ (a : TbAccountId). nat_beq a.tenant_id tenant) db.tb_account_ids

abbrev pub is_adjustment : ℕ → CreditAdjustment → Bool
is_adjustment id a = nat_beq a.id id

-- The ID of the row is drawn by the database; one that is there already breaks the primary key.
unfoldable pub insert_credit_adjustment :
    ℕ → ℕ → ResourceType → ℤ → Option ℕ → ℕ → ℕ → Database → Option Database
insert_credit_adjustment id tenant r amount reason transfer now db =
    if exists (is_tenant tenant) db.tenants && not (exists (is_adjustment id) db.credit_adjustments)
    then some (record db {
      credit_adjustments =
          db.credit_adjustments
          ++ (record {
            id = id;
            tenant_id = tenant;
            resource_type = r;
            amount = amount;
            reason = reason;
            tb_transfer_id = transfer;
            created_at = now;
          }
              ∷ []);
    })
    else none

unfoldable pub insert_global_tb_account :
    ResourceType → AccountType → ℕ → ℕ → Database → Option Database
insert_global_tb_account r t account now db =
    if global_type_allowed t
    then some (record db {
      tb_global_account_ids =
          insert_or_keep (is_global r t)
            (record {
              resource_type = r;
              account_type = t;
              tb_account_id = account;
              created_at = now;
            })
            db.tb_global_account_ids;
    })
    else none

unfoldable pub insert_quota_config : ℕ → ResourceType → ℤ → Option ℤ → Database → Option Database
insert_quota_config tenant r hard soft db =
    if exists (is_tenant tenant) db.tenants
    then some (record db {
      quota_configs =
          insert_or_keep (is_config tenant r)
            (record {
              tenant_id = tenant;
              resource_type = r;
              base_plan_id = none;
              hard_limit = hard;
              soft_limit = soft;
              burst_credits = pos 0;
              billing_period = monthly;
              soft_limit_alert_sent = false;
            })
            db.quota_configs;
    })
    else none

unfoldable pub insert_tb_account_mapping :
    ℕ → ResourceType → AccountType → ℕ → ℕ → Database → Option Database
insert_tb_account_mapping tenant r t account now db =
    if account_type_allowed t && exists (is_tenant tenant) db.tenants
    then some (record db {
      tb_account_ids =
          insert_or_keep (is_account tenant r t)
            (record {
              tenant_id = tenant;
              resource_type = r;
              account_type = t;
              tb_account_id = account;
              created_at = now;
            })
            db.tb_account_ids;
    })
    else none

-- Newest first.
unfoldable pub list_credit_adjustments_by_tenant : ℕ → Database → List CreditAdjustment
list_credit_adjustments_by_tenant tenant db =
    order_by (λ (a : CreditAdjustment) (b : CreditAdjustment). ltb b.created_at a.created_at)
      (select (λ (a : CreditAdjustment). nat_beq a.tenant_id tenant) db.credit_adjustments)

unfoldable pub list_quota_configs_by_tenant : ℕ → Database → List QuotaConfig
list_quota_configs_by_tenant tenant db =
    select (λ (c : QuotaConfig). nat_beq c.tenant_id tenant) db.quota_configs

-- The two updates of `soft_limit_alert_sent`.
abbrev pub set_alert : Bool → ℕ → ResourceType → Database → Database
set_alert sent tenant r db = record db {
  quota_configs =
      update_where (is_config tenant r)
        (λ (c : QuotaConfig). record c { soft_limit_alert_sent = sent }) db.quota_configs;
}

unfoldable pub mark_soft_limit_alert_sent : ℕ → ResourceType → Database → Database
mark_soft_limit_alert_sent tenant r db = set_alert true tenant r db

unfoldable pub reset_soft_limit_alert : ℕ → ResourceType → Database → Database
reset_soft_limit_alert tenant r db = set_alert false tenant r db

unfoldable pub upsert_quota_snapshot : ℕ → ResourceType → ℤ → ℤ → ℤ → ℕ → Database → Option Database
upsert_quota_snapshot tenant r total posted pending now db =
    if exists (is_tenant tenant) db.tenants
    then some (record db {
      quota_snapshots =
          insert_or_update (is_snapshot tenant r)
            (record {
              tenant_id = tenant;
              resource_type = r;
              credits_total = total;
              debits_posted = posted;
              debits_pending = pending;
              snapshot_at = now;
            })
            (λ (s : QuotaSnapshot). record s {
              credits_total = total;
              debits_posted = posted;
              debits_pending = pending;
              snapshot_at = now;
            })
            db.quota_snapshots;
    })
    else none
