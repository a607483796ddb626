-- ===== src/Db/Schema.antt =====
-- internal/db/sqlcgen/models.go: the rows, and the constraints of sql/migrations/001_initial.sql. UUIDs,
-- times and free texts are numbers. Texts with a CHECK are enumerations, or numbers of which the first are
-- those that the CHECK lists (for tiers: pro, starter, and the two others); larger numbers are refused.
use cloud_credit_system.Common.{ℕ, Bool, true, false, Option, List, [], ltb}
use cloud_credit_system.Common.Int.{ℤ, ◌-ℤ◌}
use cloud_credit_system.Domain.Resource.{ResourceType}
use cloud_credit_system.Domain.Codes.{AccountType, operator, sink, other_type}

-- The texts of the columns `status`, of tenants and of clusters.
pub data StatusText : Type 0 where
  active suspended deregistered healthy degraded unreachable : StatusText
  other_text : ℕ → StatusText

pub record Tenant : Type 0 where
  pub id : ℕ
  pub name : ℕ
  pub billing_tier : ℕ
  pub status : StatusText
  pub created_at : ℕ
  pub deleted_at : Option ℕ

pub record WorkloadCluster : Type 0 where
  pub id : ℕ
  pub tenant_id : ℕ
  pub cloud_provider : ℕ
  pub region : ℕ
  pub last_heartbeat : Option ℕ
  pub status : StatusText
  pub agent_version : Option ℕ
  pub deregistered_at : Option ℕ
  pub created_at : ℕ

-- The texts of the column `billing_period`.
pub data BillingPeriod : Type 0 where
  monthly daily : BillingPeriod
  other_period : ℕ → BillingPeriod

-- `base_plan_id` refers to base_plans, a table that no code reads or writes; it has no model here.
pub record QuotaConfig : Type 0 where
  pub tenant_id : ℕ
  pub resource_type : ResourceType
  pub base_plan_id : Option ℕ
  pub hard_limit : ℤ
  pub soft_limit : Option ℤ
  pub burst_credits : ℤ
  pub billing_period : BillingPeriod
  pub soft_limit_alert_sent : Bool

pub record TbAccountId : Type 0 where
  pub tenant_id : ℕ
  pub resource_type : ResourceType
  pub account_type : AccountType
  pub tb_account_id : ℕ
  pub created_at : ℕ

pub record TbGlobalAccountId : Type 0 where
  pub resource_type : ResourceType
  pub account_type : AccountType
  pub tb_account_id : ℕ
  pub created_at : ℕ

-- `available` is a generated column: no statement sets it. The error of PostgreSQL where it does not fit a
-- bigint is left out.
pub record QuotaSnapshot : Type 0 where
  pub tenant_id : ℕ
  pub resource_type : ResourceType
  pub credits_total : ℤ
  pub debits_posted : ℤ
  pub debits_pending : ℤ
  pub snapshot_at : ℕ

unfoldable pub available : QuotaSnapshot → ℤ
available s = s.credits_total -ℤ s.debits_posted -ℤ s.debits_pending

pub record CreditAdjustment : Type 0 where
  pub id : ℕ
  pub tenant_id : ℕ
  pub resource_type : ResourceType
  pub amount : ℤ
  pub reason : Option ℕ
  pub tb_transfer_id : ℕ
  pub created_at : ℕ

pub record Database : Type 0 where
  pub tenants : List Tenant
  pub workload_clusters : List WorkloadCluster
  pub quota_configs : List QuotaConfig
  pub tb_account_ids : List TbAccountId
  pub tb_global_account_ids : List TbGlobalAccountId
  pub quota_snapshots : List QuotaSnapshot
  pub credit_adjustments : List CreditAdjustment

-- After the migrations.
abbrev pub empty_database : Database
empty_database = record {
  tenants = [];
  workload_clusters = [];
  quota_configs = [];
  tb_account_ids = [];
  tb_global_account_ids = [];
  quota_snapshots = [];
  credit_adjustments = [];
}

-- CHECK (billing_tier IN …): four texts.
abbrev pub tier_allowed : ℕ → Bool
tier_allowed tier = ltb tier 4

-- CHECK (cloud_provider IN …): three texts.
abbrev pub provider_allowed : ℕ → Bool
provider_allowed provider = ltb provider 3

abbrev pub tenant_status_allowed : StatusText → Bool
tenant_status_allowed active = true
tenant_status_allowed suspended = true
tenant_status_allowed deregistered = true
tenant_status_allowed _ = false

abbrev pub cluster_status_allowed : StatusText → Bool
cluster_status_allowed active = false
cluster_status_allowed (other_text n) = false
cluster_status_allowed _ = true

abbrev pub account_type_allowed : AccountType → Bool
account_type_allowed (other_type n) = false
account_type_allowed _ = true

abbrev pub global_type_allowed : AccountType → Bool
global_type_allowed operator = true
global_type_allowed sink = true
global_type_allowed _ = false

abbrev pub period_allowed : BillingPeriod → Bool
period_allowed (other_period n) = false
period_allowed _ = true
