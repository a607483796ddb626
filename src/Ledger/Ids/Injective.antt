-- ===== src/Ledger/Ids/Injective.antt =====
-- What is hashed for a transfer ID determines the accounting event that the ID stands for.
use cloud_credit_system.Common.{ℕ, ◌^◌, ◌<◌, ◌≡◌, ap, List, ◌++◌, arith, length, length-append}
use cloud_credit_system.Ledger.Bytes.{
  le_bytes, length-le_bytes, le_bytes-injective, append-injective,
}
use cloud_credit_system.Ledger.Ids.{
  alloc_text, pending_text, void_text, usage_preimage, allocation_preimage, gauge_pending_preimage,
  gauge_void_preimage,
}

-- The four kinds of event for which the code derives an ID, with the fields that it hashes.
pub data IdEvent : Type 0 where
  usage : (cluster seq ledger : ℕ) → IdEvent
  allocation : (tenant seq ledger : ℕ) → IdEvent
  gauge_pending : (tenant seq cluster ledger : ℕ) → IdEvent
  gauge_void : (tenant seq cluster ledger : ℕ) → IdEvent

abbrev pub preimage : IdEvent → List ℕ
preimage (usage c s l) = usage_preimage c s l
preimage (allocation t s l) = allocation_preimage t s l
preimage (gauge_pending t s c l) = gauge_pending_preimage t s c l
preimage (gauge_void t s c l) = gauge_void_preimage t s c l

-- The fields are values of their Go types: 16-byte UUIDs, a uint64, a uint32.
abbrev pub Fits : IdEvent → Type 0
Fits (usage c s l) = (c < 256 ^ 16) × (s < 256 ^ 8) × (l < 256 ^ 4)
Fits (allocation t s l) = (t < 256 ^ 16) × (s < 256 ^ 8) × (l < 256 ^ 4)
Fits (gauge_pending t s c l) = (t < 256 ^ 16) × (s < 256 ^ 8) × (c < 256 ^ 16) × (l < 256 ^ 4)
Fits (gauge_void t s c l) = (t < 256 ^ 16) × (s < 256 ^ 8) × (c < 256 ^ 16) × (l < 256 ^ 4)

-- A field of fixed width in front of a rest can be read back.
field-injective :
    (k n m : ℕ) (ys zs : List ℕ)
    → n < 256 ^ k
    → m < 256 ^ k
    → le_bytes k n ++ ys ≡ le_bytes k m ++ zs
    → (n ≡ m) × (ys ≡ zs)
field-injective k n m ys zs hn hm e =
    let (p, q) =
      append-injective (le_bytes k n) ys (le_bytes k m) zs
        (omega (arith, length-le_bytes k n, length-le_bytes k m)) e in
    (le_bytes-injective k n m hn hm p, q)

text-cancel : (t xs ys : List ℕ) → t ++ xs ≡ t ++ ys → xs ≡ ys
text-cancel t xs ys e = (append-injective t xs t ys (omega arith) e).1

three_fields :
    (a b c a' b' c' : ℕ)
    → (a < 256 ^ 16) × (b < 256 ^ 8) × (c < 256 ^ 4)
    → (a' < 256 ^ 16) × (b' < 256 ^ 8) × (c' < 256 ^ 4)
    → le_bytes 16 a ++ (le_bytes 8 b ++ le_bytes 4 c)
      ≡ le_bytes 16 a' ++ (le_bytes 8 b' ++ le_bytes 4 c')
    → (a ≡ a') × (b ≡ b') × (c ≡ c')
three_fields a b c a' b' c' h h' e =
    let (p, e1) = field-injective 16 a a' _ _ h.0 h'.0 e in
    let (q, e2) = field-injective 8 b b' _ _ h.1 h'.1 e1 in
    (p, q, le_bytes-injective 4 c c' h.2 h'.2 e2)

four_fields :
    (a b c d a' b' c' d' : ℕ)
    → (a < 256 ^ 16) × (b < 256 ^ 8) × (c < 256 ^ 16) × (d < 256 ^ 4)
    → (a' < 256 ^ 16) × (b' < 256 ^ 8) × (c' < 256 ^ 16) × (d' < 256 ^ 4)
    → le_bytes 16 a ++ (le_bytes 8 b ++ (le_bytes 16 c ++ le_bytes 4 d))
      ≡ le_bytes 16 a' ++ (le_bytes 8 b' ++ (le_bytes 16 c' ++ le_bytes 4 d'))
    → (a ≡ a') × (b ≡ b') × (c ≡ c') × (d ≡ d')
four_fields a b c d a' b' c' d' h h' e =
    let (p, e1) = field-injective 16 a a' _ _ h.0 h'.0 e in
    let (q, e2) = field-injective 8 b b' _ _ h.1 h'.1 e1 in
    let (r, e3) = field-injective 16 c c' _ _ h.2 h'.2 e2 in
    (p, q, r, le_bytes-injective 4 d d' h.3 h'.3 e3)

-- The four kinds hash byte strings of four different lengths.
abbrev width : IdEvent → ℕ
width (usage _ _ _) = 28
width (allocation _ _ _) = 33
width (gauge_pending _ _ _ _) = 57
width (gauge_void _ _ _ _) = 54

length-preimage : (e : IdEvent) → length (preimage e) ≡ width e
unfolding usage_preimage allocation_preimage gauge_pending_preimage gauge_void_preimage
length-preimage (usage c s l) = omega (arith, length-append {0}, length-le_bytes)
length-preimage (allocation t s l) = omega (arith, length-append {0}, length-le_bytes)
length-preimage (gauge_pending t s c l) = omega (arith, length-append {0}, length-le_bytes)
length-preimage (gauge_void t s c l) = omega (arith, length-append {0}, length-le_bytes)

other_kind : (e e' : IdEvent) → preimage e ≡ preimage e' → width e ≡ width e'
other_kind e e' p = omega (arith, length-preimage e, length-preimage e', ap length p)

-- Two events whose fields are in range hash the same bytes only if they are the same event: the
-- byte strings of usage, allocation, gauge-pending and gauge-void IDs never coincide, and within a
-- kind every field can be read back.
pub preimage-injective : (e e' : IdEvent) → Fits e → Fits e' → preimage e ≡ preimage e' → e ≡ e'
unfolding usage_preimage allocation_preimage gauge_pending_preimage gauge_void_preimage
preimage-injective (usage c s l) (usage c' s' l') h h' p =
    let (x, y, z) = three_fields c s l c' s' l' h h' p in cc
preimage-injective (allocation t s l) (allocation t' s' l') h h' p =
    let (x, y, z) = three_fields t s l t' s' l' h h' (text-cancel alloc_text _ _ p) in cc
preimage-injective (gauge_pending t s c l) (gauge_pending t' s' c' l') h h' p =
    let (x, y, z, w) = four_fields t s c l t' s' c' l' h h' (text-cancel pending_text _ _ p) in cc
preimage-injective (gauge_void t s c l) (gauge_void t' s' c' l') h h' p =
    let (x, y, z, w) = four_fields t s c l t' s' c' l' h h' (text-cancel void_text _ _ p) in cc
preimage-injective e e' h h' p = absurd (omega (arith, other_kind e e' p))
