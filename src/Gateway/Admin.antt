-- ===== src/Gateway/Admin.antt =====
-- internal/gateway/admin_handler.go: the RPCs of AdminHandler. PostgreSQL, Temporal and the formatting of
-- UUIDs, times and bytes are parameters; a text is a number.
pub mod Credit
use cloud_credit_system.Common.{
  ℕ, Bool, true, false, Option, none, some, List, [], ◌∷◌, if◌then◌else◌, nat_beq, length, map,
  Result, ok, err,
}
use mathlib.Core.Option
use cloud_credit_system.Common.Int.{ℤ, pos, leb_ℤ}
use cloud_credit_system.Domain.Resource.{ResourceType}
use cloud_credit_system.Domain.Codes.{code_quota_adjustment}
use cloud_credit_system.Accounting.Signals.{QuotaAdjustmentSignal}
use cloud_credit_system.Accounting.Activities.{Balances}
use cloud_credit_system.Gateway.Quotas.{QuotaInfo, SnapshotRow, listed_quota, issued_quota}

pub data AdminError : Type 0 where
  invalid_argument internal : AdminError

pub record IssueTenantCreditRequest : Type 0 where
  pub tenant_id : ℕ
  pub resource_type : ResourceType
  pub amount : ℤ
  pub reason : ℕ

-- The rows that the queries return, in the columns that are read.
pub record TenantRow : Type 0 where
  pub id : ℕ
  pub name : ℕ
  pub billing_tier : ℕ
  pub status : ℕ
  pub created_at : ℕ

pub record CreditAdjustmentRow : Type 0 where
  pub id : ℕ
  pub resource_type : ResourceType
  pub amount : ℤ
  pub reason : Option ℕ
  pub tb_transfer_id : List ℕ
  pub created_at : ℕ

pub record ClusterRow : Type 0 where
  pub id : ℕ
  pub tenant_id : ℕ
  pub cloud_provider : ℕ
  pub region : ℕ
  pub status : ℕ
  pub last_heartbeat : Option ℕ
  pub agent_version : Option ℕ

pub record TenantSummary : Type 0 where
  pub id : ℕ
  pub name : ℕ
  pub billing_tier : ℕ
  pub status : ℕ
  pub created_at : ℕ

pub record CreditAdjustmentEntry : Type 0 where
  pub id : ℕ
  pub resource_type : ResourceType
  pub amount : ℤ
  pub reason : ℕ
  pub transfer_id : ℕ
  pub created_at : ℕ

pub record ClusterSummary : Type 0 where
  pub id : ℕ
  pub tenant_id : ℕ
  pub cloud_provider : ℕ
  pub region : ℕ
  pub status : ℕ
  pub last_heartbeat : ℕ
  pub agent_version : ℕ

-- The services on a world `W`: `none` or `false` is an error.
pub record AdminServices (W : Type 0) : Type 0 where
  pub parse_uuid : ℕ → Option ℕ
  pub uuid_text : ℕ → ℕ
  pub utc_text : ℕ → ℕ
  pub hex_text : List ℕ → ℕ
  pub update_workflow : ℕ → QuotaAdjustmentSignal → W → Option Balances × W
  pub get_quota_snapshots : ℕ → W → Option (List SnapshotRow)
  pub list_tenants : W → Option (List TenantRow)
  pub list_credit_adjustments_by_tenant : ℕ → W → Option (List CreditAdjustmentRow)
  pub list_clusters_by_tenant : ℕ → W → Option (List ClusterRow)
  pub delete_tenant : ℕ → W → Bool × W
  pub deregister_cluster : ℕ → W → Bool × W

-- The empty text, which a field has that is not set.
abbrev pub text_or_empty : Option ℕ → ℕ
text_or_empty none = 0
text_or_empty (some t) = t

abbrev pub credit_signal : IssueTenantCreditRequest → QuotaAdjustmentSignal
credit_signal r = record {
  resource_type = r.resource_type;
  amount = r.amount;
  reason = r.reason;
  code = code_quota_adjustment;
}

-- The quotas of IssueTenantCredit, in the order in which the map is ranged over.
unfoldable pub issued_quotas : (ℤ → ℤ → Bool) → Balances → List QuotaInfo
issued_quotas ratio_ge_80 [] = []
issued_quotas ratio_ge_80 ((r, snap) ∷ rest) =
    issued_quota ratio_ge_80 r snap ∷ issued_quotas ratio_ge_80 rest

-- What follows the update.
unfoldable pub credit_answer :
    {W : Type 0} → (ℤ → ℤ → Bool) → Option Balances × W → Result AdminError (List QuotaInfo) × W
credit_answer ratio_ge_80 (none, w) = (err internal, w)
credit_answer ratio_ge_80 (some balances, w) = (ok (issued_quotas ratio_ge_80 balances), w)

module _ {W : Type 0} (sv : AdminServices W) where
  -- A read that takes an ID: a bad ID, a failed query, or its answer.
  abbrev pub read_by_id : {A : Type 0} → ℕ → (ℕ → Option A) → Result AdminError A
  read_by_id text query = elim (sv.parse_uuid text) [
    | none ↦ err invalid_argument
    | some id ↦ elim (query id) [ none ↦ err internal | some a ↦ ok a ]
  ]

  -- A write that takes an ID.
  abbrev pub write_by_id : ℕ → (ℕ → W → Bool × W) → W → Result AdminError (Unit {0}) × W
  write_by_id text write w = elim (sv.parse_uuid text) [
    | none ↦ (err invalid_argument, w)
    | some id ↦
        let (done, w') = write id w in elim done [ true ↦ (ok tt, w') | false ↦ (err internal, w') ]
  ]

  unfoldable pub issue_tenant_credit :
      (ℤ → ℤ → Bool) → IssueTenantCreditRequest → W → Result AdminError (List QuotaInfo) × W
  issue_tenant_credit ratio_ge_80 r w =
      if leb_ℤ r.amount (pos 0)
      then (err invalid_argument, w)
      else credit_answer ratio_ge_80 (sv.update_workflow r.tenant_id (credit_signal r) w)

  unfoldable pub list_tenant_quotas : (ℤ → ℤ → Bool) → ℕ → W → Result AdminError (List QuotaInfo)
  list_tenant_quotas ratio_ge_80 tenant w =
      read_by_id tenant
        (λ id. Option.map (map (listed_quota ratio_ge_80)) (sv.get_quota_snapshots id w))

  unfoldable pub tenant_summary : TenantRow → TenantSummary
  tenant_summary t = record {
    id = sv.uuid_text t.id;
    name = t.name;
    billing_tier = t.billing_tier;
    status = t.status;
    created_at = sv.utc_text t.created_at;
  }

  unfoldable pub list_tenants : W → Result AdminError (List TenantSummary)
  list_tenants w = elim (sv.list_tenants w) [
    | none ↦ err internal
    | some rows ↦ ok (map tenant_summary rows)
  ]

  -- `len(r.TbTransferID) == 16`
  unfoldable pub transfer_id_text : List ℕ → ℕ
  transfer_id_text bytes = if nat_beq (length bytes) 16 then sv.hex_text bytes else 0

  unfoldable pub adjustment_entry : CreditAdjustmentRow → CreditAdjustmentEntry
  adjustment_entry r = record {
    id = sv.uuid_text r.id;
    resource_type = r.resource_type;
    amount = r.amount;
    reason = text_or_empty r.reason;
    transfer_id = transfer_id_text r.tb_transfer_id;
    created_at = sv.utc_text r.created_at;
  }

  unfoldable pub list_credit_adjustments : ℕ → W → Result AdminError (List CreditAdjustmentEntry)
  list_credit_adjustments tenant w =
      read_by_id tenant
        (λ id. Option.map (map adjustment_entry) (sv.list_credit_adjustments_by_tenant id w))

  unfoldable pub cluster_summary : ClusterRow → ClusterSummary
  cluster_summary c = record {
    id = sv.uuid_text c.id;
    tenant_id = sv.uuid_text c.tenant_id;
    cloud_provider = c.cloud_provider;
    region = c.region;
    status = c.status;
    last_heartbeat = text_or_empty (Option.map sv.utc_text c.last_heartbeat);
    agent_version = text_or_empty c.agent_version;
  }

  unfoldable pub list_clusters : ℕ → W → Result AdminError (List ClusterSummary)
  list_clusters tenant w =
      read_by_id tenant (λ id. Option.map (map cluster_summary) (sv.list_clusters_by_tenant id w))

  unfoldable pub delete_tenant : ℕ → W → Result AdminError (Unit {0}) × W
  delete_tenant tenant w = write_by_id tenant sv.delete_tenant w

  unfoldable pub deregister_cluster : ℕ → W → Result AdminError (Unit {0}) × W
  deregister_cluster cluster w = write_by_id cluster sv.deregister_cluster w
