-- ===== src/Ledger/Bytes.antt =====
-- Little-endian byte strings, as `binary.LittleEndian` writes them. A `[16]byte` value is the
-- number that its bytes spell, so `id[:]` is `le_bytes 16 id`.
use cloud_credit_system.Common.{
  ℕ, zero, suc, ◌+◌, ◌*◌, ◌/◌, ◌%◌, ◌^◌, ◌<◌, ◌≡◌, refl, ap, List, [], ◌∷◌, ◌++◌, arith, length,
}
use native.Mathlib.Nat.{pow-suc}

-- The low `k` bytes of `n`, least significant first.
unfoldable pub le_bytes : ℕ → ℕ → List ℕ
le_bytes zero n = []
le_bytes (suc k) n = (n % 256) ∷ le_bytes k (n / 256)

-- The number that the bytes spell, as `binary.LittleEndian.Uint64` reads it.
unfoldable pub le_value : List ℕ → ℕ
le_value [] = 0
le_value (b ∷ bs) = b + 256 * le_value bs

pub length-le_bytes : (k n : ℕ) → length (le_bytes k n) ≡ k
unfolding le_bytes
length-le_bytes zero n = refl
length-le_bytes (suc k) n = ap suc (length-le_bytes k (n / 256))

pub le_value-le_bytes : (k n : ℕ) → n < 256 ^ k → le_value (le_bytes k n) ≡ n
unfolding le_bytes le_value
le_value-le_bytes zero n h = omega arith
le_value-le_bytes (suc k) n h =
    let p : n < 256 ^ k * 256 = rw (pow-suc 256 k) at h in
    omega (arith, le_value-le_bytes k (n / 256) (omega arith))

pub append-injective :
    (xs ys xs' ys' : List ℕ)
    → length xs ≡ length xs'
    → xs ++ ys ≡ xs' ++ ys'
    → (xs ≡ xs') × (ys ≡ ys')
append-injective [] ys [] ys' l e = (refl, e)
append-injective [] ys (x' ∷ xs') ys' l e = absurd (omega arith)
append-injective (x ∷ xs) ys [] ys' l e = absurd (omega arith)
append-injective (x ∷ xs) ys (x' ∷ xs') ys' l e = ground (arith, append-injective xs ys xs' ys')

-- Numbers below 256 ^ k are told apart by their k bytes.
pub le_bytes-injective :
    (k n m : ℕ) → n < 256 ^ k → m < 256 ^ k → le_bytes k n ≡ le_bytes k m → n ≡ m
le_bytes-injective k n m hn hm e =
    omega (arith, le_value-le_bytes k n hn, le_value-le_bytes k m hm, ap le_value e)
