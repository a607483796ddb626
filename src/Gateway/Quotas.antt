-- ===== src/Gateway/Quotas.antt =====
-- Quota status as the handlers compute it: internal/gateway/heartbeat_handler.go (queryWorkflowState,
-- overallStatus, buildPendingCommands) and internal/gateway/admin_handler.go (IssueTenantCredit,
-- ListTenantQuotas).
pub mod Laws
use cloud_credit_system.Common.{
  ℕ, Bool, true, false, not, ◌&&◌, ◌||◌, Option, none, some, List, [], ◌∷◌, ltb, if◌then◌else◌,
}
use cloud_credit_system.Common.Int.{ℤ, pos, ◌-ℤ◌, leb_ℤ, ltb_ℤ, wrap_i64}
use cloud_credit_system.Common.Maps.{Map, lookup}
use cloud_credit_system.Domain.Resource.{ResourceType, resource_key, is_gauge}
use cloud_credit_system.Accounting.Signals.{QuotaSnapshotData}

-- `creditsystemv1.Status`, in the order of its numbers.
pub data Status : Type 0 where
  unspecified ok quota_warning quota_exceeded degraded : Status

abbrev pub status_number : Status → ℕ
status_number unspecified = 0
status_number ok = 1
status_number quota_warning = 2
status_number quota_exceeded = 3
status_number degraded = 4

pub record QuotaInfo : Type 0 where
  pub resource_type : ResourceType
  pub used : ℤ
  pub limit : ℤ
  pub available : ℤ
  pub status : Status

-- A row of `quota_snapshots`; `available` is the nullable generated column.
pub record SnapshotRow : Type 0 where
  pub resource_type : ResourceType
  pub credits_total : ℤ
  pub debits_posted : ℤ
  pub debits_pending : ℤ
  pub available : Option ℤ

-- `s.Available.Int64`: zero where the column is NULL.
abbrev pub int64_of : Option ℤ → ℤ
int64_of none = pos 0
int64_of (some n) = n

abbrev pub is_valid : Option ℤ → Bool
is_valid none = false
is_valid (some n) = true

-- A missing key of a map of flags reads as false.
abbrev pub flag : Option Bool → Bool
flag none = false
flag (some b) = b

abbrev pub used_of : ResourceType → ℤ → ℤ → ℤ
used_of r posted pending = if is_gauge r then pending else posted

-- TYPE_SHUTDOWN with the resource and the balance that its reason names.
pub record Command : Type 0 where
  pub resource_type : ResourceType
  pub available : ℤ

-- `ratio_ge_80 used total` is the comparison `float64(used)/float64(total) >= 0.8`.
module _ (ratio_ge_80 : ℤ → ℤ → Bool) where
  -- The `if` of the handlers, given whether the resource is exhausted.
  unfoldable pub status_of : Bool → ℤ → ℤ → Status
  status_of exhausted used total =
      if exhausted
      then quota_exceeded
      else if ltb_ℤ (pos 0) total && ratio_ge_80 used total
      then quota_warning
      else ok

  -- The body of the loop of queryWorkflowState.
  unfoldable pub heartbeat_quota : Map ResourceType Bool → SnapshotRow → QuotaInfo
  heartbeat_quota exceeded s =
      let used = used_of s.resource_type s.debits_posted s.debits_pending in
      record {
        resource_type = s.resource_type;
        used = used;
        limit = s.credits_total;
        available = int64_of s.available;
        status =
            status_of
              (not (is_valid s.available)
                || leb_ℤ (int64_of s.available) (pos 0)
                || flag (lookup s.resource_type exceeded))
              used s.credits_total;
      }

  -- The body of the loop of ListTenantQuotas.
  unfoldable pub listed_quota : SnapshotRow → QuotaInfo
  listed_quota s =
      let used = used_of s.resource_type s.debits_posted s.debits_pending in
      record {
        resource_type = s.resource_type;
        used = used;
        limit = s.credits_total;
        available = int64_of s.available;
        status =
            status_of (not (is_valid s.available) || leb_ℤ (int64_of s.available) (pos 0)) used
              s.credits_total;
      }

  -- The body of the loop of IssueTenantCredit.
  unfoldable pub issued_quota : ResourceType → QuotaSnapshotData → QuotaInfo
  issued_quota r snap =
      let available = wrap_i64 (snap.credits_total -ℤ snap.debits_posted -ℤ snap.debits_pending) in
      let used = used_of r snap.debits_posted snap.debits_pending in
      record {
        resource_type = r;
        used = used;
        limit = snap.credits_total;
        available = available;
        status = status_of (leb_ℤ available (pos 0)) used snap.credits_total;
      }

  unfoldable pub heartbeat_quotas : Map ResourceType Bool → List SnapshotRow → List QuotaInfo
  heartbeat_quotas exceeded [] = []
  heartbeat_quotas exceeded (s ∷ rest) = heartbeat_quota exceeded s ∷ heartbeat_quotas exceeded rest

-- The loop of overallStatus, on `worst`.
unfoldable pub worst_from : Status → List QuotaInfo → Status
worst_from worst [] = worst
worst_from worst (q ∷ qs) =
    worst_from (if ltb (status_number worst) (status_number q.status) then q.status else worst) qs

abbrev pub or_ok : Status → Status
or_ok unspecified = ok
or_ok s = s

unfoldable pub overall_status : List QuotaInfo → Status
overall_status quotas = or_ok (worst_from unspecified quotas)

abbrev pub is_exceeded : Status → Bool
is_exceeded quota_exceeded = true
is_exceeded s = false

unfoldable pub build_pending_commands : List QuotaInfo → List Command
build_pending_commands [] = []
build_pending_commands (q ∷ qs) =
    if is_exceeded q.status
    then record { resource_type = q.resource_type; available = q.available }
      ∷ build_pending_commands qs
    else build_pending_commands qs
