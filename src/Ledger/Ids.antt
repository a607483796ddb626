-- ===== src/Ledger/Ids.antt =====
-- internal/ledger/ids.go: the deterministic 128-bit transfer IDs. BLAKE3 is a parameter: the
-- 32-byte digest of a byte string.
pub mod Injective
use cloud_credit_system.Common.{ℕ, List, [], ◌∷◌, ◌++◌, take}
use cloud_credit_system.Ledger.Bytes.{le_bytes, le_value}

-- `bytesToUint128`: the first 16 bytes.
unfoldable pub bytes_to_uint128 : List ℕ → ℕ
bytes_to_uint128 b = le_value (take 16 b)

-- `UUIDToUint128` and `Uint128ToBytes` copy the 16 bytes.
abbrev pub uuid_to_uint128 : ℕ → ℕ
uuid_to_uint128 id = id

abbrev pub uint128_to_bytes : ℕ → ℕ
uint128_to_bytes id = id

-- The texts that separate the kinds of ID, byte by byte.
abbrev pub alloc_text : List ℕ
alloc_text = b'a' ∷ b'l' ∷ b'l' ∷ b'o' ∷ b'c' ∷ []

abbrev pub gauge_text : List ℕ
gauge_text = b'g' ∷ b'a' ∷ b'u' ∷ b'g' ∷ b'e' ∷ b'-' ∷ []

abbrev pub pending_text : List ℕ
pending_text = gauge_text ++ (b'p' ∷ b'e' ∷ b'n' ∷ b'd' ∷ b'i' ∷ b'n' ∷ b'g' ∷ [])

abbrev pub void_text : List ℕ
void_text = gauge_text ++ (b'v' ∷ b'o' ∷ b'i' ∷ b'd' ∷ [])

-- What each function writes to the hash, in order.
unfoldable pub usage_preimage : ℕ → ℕ → ℕ → List ℕ
usage_preimage cluster seq ledger = le_bytes 16 cluster ++ (le_bytes 8 seq ++ le_bytes 4 ledger)

unfoldable pub allocation_preimage : ℕ → ℕ → ℕ → List ℕ
allocation_preimage tenant seq ledger =
    alloc_text ++ (le_bytes 16 tenant ++ (le_bytes 8 seq ++ le_bytes 4 ledger))

unfoldable pub gauge_pending_preimage : ℕ → ℕ → ℕ → ℕ → List ℕ
gauge_pending_preimage tenant seq cluster ledger =
    pending_text
    ++ (le_bytes 16 tenant ++ (le_bytes 8 seq ++ (le_bytes 16 cluster ++ le_bytes 4 ledger)))

unfoldable pub gauge_void_preimage : ℕ → ℕ → ℕ → ℕ → List ℕ
gauge_void_preimage tenant seq cluster ledger =
    void_text
    ++ (le_bytes 16 tenant ++ (le_bytes 8 seq ++ (le_bytes 16 cluster ++ le_bytes 4 ledger)))

module _ (blake3 : List ℕ → List ℕ) where
  unfoldable pub derive_transfer_id : ℕ → ℕ → ℕ → ℕ
  derive_transfer_id cluster seq ledger =
      bytes_to_uint128 (blake3 (usage_preimage cluster seq ledger))

  unfoldable pub derive_allocation_transfer_id : ℕ → ℕ → ℕ → ℕ
  derive_allocation_transfer_id tenant seq ledger =
      bytes_to_uint128 (blake3 (allocation_preimage tenant seq ledger))

  unfoldable pub derive_gauge_pending_id : ℕ → ℕ → ℕ → ℕ → ℕ
  derive_gauge_pending_id tenant seq cluster ledger =
      bytes_to_uint128 (blake3 (gauge_pending_preimage tenant seq cluster ledger))

  unfoldable pub derive_gauge_void_id : ℕ → ℕ → ℕ → ℕ → ℕ
  derive_gauge_void_id tenant seq cluster ledger =
      bytes_to_uint128 (blake3 (gauge_void_preimage tenant seq cluster ledger))
