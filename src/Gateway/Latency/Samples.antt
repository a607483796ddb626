-- ===== src/Gateway/Latency/Samples.antt =====
-- Which durations are in the ring.
use cloud_credit_system.Common.{
  ℕ, zero, suc, ◌-◌, ◌%◌, ◌<◌, ◌≡◌, ◌≢◌, ap, refl, some, List, [], ◌∷◌, arith, length, get_elem?,
  leb, if◌then◌else◌,
}
use cloud_credit_system.Gateway.Latency.{ring_size, new_ring, record_latency, sample_count, ring_of}

-- The place and the flag after `n` durations.
pub at_place :
    (ds : List ℕ)
    → ((ring_of ds).lat_pos ≡ length ds % ring_size)
      × ((ring_of ds).lat_full ≡ leb ring_size (length ds))
unfolding ring_of new_ring record_latency
at_place [] = (refl, refl)
at_place (d ∷ ds) =
    let (pos, full) = at_place ds in (ground (arith, pos), ground (arith, pos, full))

in_range : (ds : List ℕ) (k d : ℕ) → get_elem? ds k ≡ some d → k < length ds
in_range [] k d at = absurd (cc at)
in_range (x ∷ ds) zero d at = omega arith
in_range (x ∷ ds) (suc k) d at = let below = in_range ds k d at in omega arith

-- Among 2048 turns in a row no two have the same place.
other_place : (n k : ℕ) → suc k < ring_size → k < n → (n - suc k) % ring_size ≢ n % ring_size
other_place n k small inside e = absurd (omega arith)

-- Percentiles sorts as many samples as were recorded, but at most 2048.
pub sample_count-ring_of :
    (ds : List ℕ)
    → sample_count (ring_of ds) ≡ (if leb ring_size (length ds) then ring_size else length ds)
unfolding sample_count
sample_count-ring_of ds = let (pos, full) = at_place ds in ground (arith, pos, full)

-- The k-th newest duration, for k below 2048, is in the ring, at the place of its turn: what the ring
-- overwrites is always the oldest.
pub newest_in_ring :
    (ds : List ℕ) (k d : ℕ)
    → k < ring_size
    → get_elem? ds k ≡ some d
    → (ring_of ds).lat_ring ((length ds - suc k) % ring_size) ≡ d
unfolding ring_of record_latency
newest_in_ring [] k d small at = absurd (cc at)
newest_in_ring (x ∷ ds) zero d small at = let (pos, _) = at_place ds in ground (arith, pos, at)
newest_in_ring (x ∷ ds) (suc k) d small at =
    let (pos, _) = at_place ds in
    let before = newest_in_ring ds k d (omega arith) at in
    let inside = in_range ds k d at in
    let place = (length ds - suc k) % ring_size in
    let same : (suc (length ds) - suc (suc k)) % ring_size ≡ place =
      ap (λ i. i % ring_size) (omega arith) in
    let apart = other_place (length ds) k small inside in
    rw (same, pos) (ground (arith, apart, before))
