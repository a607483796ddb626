-- ===== src/Domain/Resource.antt =====
-- internal/domain/resource.go. A `ResourceType` is a Go string; the code only compares it, so it
-- is one of the three constants or some other text, which a number names.
use cloud_credit_system.Common.{
  ℕ, ◌+◌, ◌≡◌, Bool, true, false, Option, none, some, List, [], ◌∷◌, arith, Key, nat_beq,
  if◌then◌else◌, ◌↔◌,
}

pub data ResourceType : Type 0 where
  cpu_hours memory_gb_hours active_nodes : ResourceType
  other : ℕ → ResourceType

abbrev pub resource_number : ResourceType → ℕ
resource_number cpu_hours = 0
resource_number memory_gb_hours = 1
resource_number active_nodes = 2
resource_number (other n) = 3 + n

abbrev pub resource_beq : ResourceType → ResourceType → Bool
resource_beq r s = nat_beq (resource_number r) (resource_number s)

pub resource_beq_iff : (r s : ResourceType) → (resource_beq r s ≡ true) ↔ (r ≡ s)
resource_beq_iff r s = ground arith

instance abbrev pub resource_key : Key ResourceType
resource_key = record { same = resource_beq; same_iff = resource_beq_iff }

abbrev pub all_resources : List ResourceType
all_resources = cpu_hours ∷ memory_gb_hours ∷ active_nodes ∷ []

-- `none` is the panic on an unknown resource type.
abbrev pub ledger_id : ResourceType → Option ℕ
ledger_id cpu_hours = some 1
ledger_id memory_gb_hours = some 2
ledger_id active_nodes = some 3
ledger_id (other n) = none

abbrev pub is_gauge : ResourceType → Bool
is_gauge r = resource_beq r active_nodes

-- `r.LedgerID() == ledgerID` in the loop below.
abbrev has_ledger : ℕ → ResourceType → Bool
has_ledger ledger r = elim (ledger_id r) [ none ↦ false | some l ↦ nat_beq l ledger ]

unfoldable pub find_ledger : ℕ → List ResourceType → Option ResourceType
find_ledger ledger [] = none
find_ledger ledger (r ∷ rs) = if has_ledger ledger r then some r else find_ledger ledger rs

unfoldable pub resource_type_from_ledger : ℕ → Option ResourceType
unfolding find_ledger
resource_type_from_ledger ledger = find_ledger ledger all_resources

-- The two conversions are inverse to each other: a ledger number leads to a resource type exactly
-- when it is the ledger of that type.
pub resource_type_from_ledger-ledger_id :
    (ledger : ℕ) (r : ResourceType)
    → (resource_type_from_ledger ledger ≡ some r) ↔ (ledger_id r ≡ some ledger)
unfolding resource_type_from_ledger
resource_type_from_ledger-ledger_id ledger r = ground arith

-- No two resource types share a ledger.
pub ledger_id-injective :
    (r s : ResourceType) (l : ℕ) → ledger_id r ≡ some l → ledger_id s ≡ some l → r ≡ s
ledger_id-injective r s l p q = ground arith
