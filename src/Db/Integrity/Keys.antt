-- ===== src/Db/Integrity/Keys.antt =====
-- The keys of the tables, and rows that are added.
use cloud_credit_system.Common.{
  ℕ, ◌≡◌, refl, inl, inr, Bool, true, false, ◌&&◌, Option, none, some, List, [], ◌∷◌, ◌++◌, arith,
  All, All-append, if◌then◌else◌, Bool-cases, nat_beq,
}
use cloud_credit_system.Domain.Resource.{ResourceType, resource_beq}
use cloud_credit_system.Domain.Codes.{AccountType, type_beq}
use cloud_credit_system.Db.Table.{exists, insert_or_keep}
use cloud_credit_system.Db.Schema.{
  Tenant, WorkloadCluster, QuotaConfig, TbAccountId, TbGlobalAccountId, QuotaSnapshot,
  CreditAdjustment, Database,
}
use cloud_credit_system.Db.Tenants.{is_tenant}
use cloud_credit_system.Db.Clusters.{is_cluster}
use cloud_credit_system.Db.Quota.{is_snapshot, is_adjustment, is_config, is_global, is_account}
use cloud_credit_system.Db.Integrity.{IsIntact}

-- The keys are compared the same way round from both sides.
abbrev pub tenant_key : Tenant → Tenant → Bool
tenant_key a = is_tenant a.id

abbrev pub cluster_key : WorkloadCluster → WorkloadCluster → Bool
cluster_key a = is_cluster a.id

abbrev pub config_key : QuotaConfig → QuotaConfig → Bool
config_key a = is_config a.tenant_id a.resource_type

abbrev pub account_key : TbAccountId → TbAccountId → Bool
account_key a = is_account a.tenant_id a.resource_type a.account_type

abbrev pub global_key : TbGlobalAccountId → TbGlobalAccountId → Bool
global_key a = is_global a.resource_type a.account_type

abbrev pub snapshot_key : QuotaSnapshot → QuotaSnapshot → Bool
snapshot_key a = is_snapshot a.tenant_id a.resource_type

abbrev pub adjustment_key : CreditAdjustment → CreditAdjustment → Bool
adjustment_key a = is_adjustment a.id

pub nat_mirror : (a b : ℕ) → nat_beq a b ≡ nat_beq b a
nat_mirror a b = ground arith

pub resource_mirror : (r q : ResourceType) → resource_beq r q ≡ resource_beq q r
resource_mirror r q = ground arith

pub type_mirror : (t u : AccountType) → type_beq t u ≡ type_beq u t
type_mirror t u = ground arith

pub config_mirror : (a b : QuotaConfig) → config_key a b ≡ config_key b a
config_mirror a b = ground arith

pub account_mirror : (a b : TbAccountId) → account_key a b ≡ account_key b a
account_mirror a b = ground arith

pub global_mirror : (a b : TbGlobalAccountId) → global_key a b ≡ global_key b a
global_mirror a b = ground arith

pub snapshot_mirror : (a b : QuotaSnapshot) → snapshot_key a b ≡ snapshot_key b a
snapshot_mirror a b = ground arith

pub adjustment_mirror : (a b : CreditAdjustment) → adjustment_key a b ≡ adjustment_key b a
adjustment_mirror a b = nat_mirror b.id a.id

pub and_split : (a b : Bool) → (a && b) ≡ true → (a ≡ true) × (b ≡ true)
and_split true b h = (refl, h)
and_split false b h = absurd (cc h)

pub is_true : {b : Bool} (c : Bool) → b ≡ true → (if b then true else c) ≡ true
is_true c e = rw e refl

module _ {R : Type 0} (P : R → Type 0) where
  pub append_row-All : (rs : List R) (r : R) → All P rs → P r → All P (rs ++ (r ∷ []))
  append_row-All rs r h new = All-append P rs (r ∷ []) h (new, tt)

  pub insert_or_keep-All :
      (p : R → Bool) (rs : List R) (r : R) → All P rs → P r → All P (insert_or_keep p r rs)
  insert_or_keep-All p rs r h new = elim (Bool-cases (exists p rs)) [
    | inl there ↦ rw there h
    | inr absent ↦ rw absent (append_row-All rs r h new)
  ]

-- What holds of the database that a statement leaves, if it is no error.
abbrev pub IsIntactIf : Option Database → Type 0
IsIntactIf none = Unit {0}
IsIntactIf (some db) = IsIntact db
