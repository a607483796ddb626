-- ===== src/Domain/Codes.antt =====
-- internal/domain/account_codes.go and internal/domain/transfer_codes.go.
use cloud_credit_system.Common.{ℕ, ◌+◌, ◌≡◌, ◌↔◌, Bool, true, Option, none, some, arith, nat_beq}

-- The values of `AccountType`; `other_type` is any other text.
pub data AccountType : Type 0 where
  operator tenant_quota sink : AccountType
  other_type : ℕ → AccountType

abbrev pub type_number : AccountType → ℕ
type_number operator = 0
type_number tenant_quota = 1
type_number sink = 2
type_number (other_type n) = 3 + n

abbrev pub type_beq : AccountType → AccountType → Bool
type_beq a b = nat_beq (type_number a) (type_number b)

pub type_beq_iff : (a b : AccountType) → (type_beq a b ≡ true) ↔ (a ≡ b)
type_beq_iff a b = ground arith

abbrev pub account_code_tenant_quota : ℕ
account_code_tenant_quota = 2

-- `none` is the panic on an unknown account type.
abbrev pub account_code_from_type : AccountType → Option ℕ
account_code_from_type operator = some 1
account_code_from_type tenant_quota = some account_code_tenant_quota
account_code_from_type sink = some 3
account_code_from_type (other_type n) = none

abbrev pub code_quota_allocation : ℕ
code_quota_allocation = 100

abbrev pub code_quota_adjustment : ℕ
code_quota_adjustment = 101

abbrev pub code_usage_record : ℕ
code_usage_record = 200

abbrev pub code_gauge_reservation : ℕ
code_gauge_reservation = 202
