-- ===== src/Gateway/Latency.antt =====
-- The ring of signal latencies of internal/gateway/heartbeat_handler.go: recordLatency, and the number
-- of samples that Percentiles sorts.
pub mod Samples
pub mod Percentiles
pub mod Window
use cloud_credit_system.Common.{
  ℕ, zero, suc, ◌+◌, Bool, true, false, List, [], ◌∷◌, leb, nat_beq, if◌then◌else◌,
}

-- `len(h.latRing)`
abbrev pub ring_size : ℕ
ring_size = 2048

-- `lat_ring` is the array as a function of the index.
pub record LatencyRing : Type 0 where
  pub lat_ring : ℕ → ℕ
  pub lat_pos : ℕ
  pub lat_full : Bool

-- The zero value.
unfoldable pub new_ring : LatencyRing
new_ring = record { lat_ring = λ i. 0; lat_pos = 0; lat_full = false }

-- `latRing[pos] = us`
abbrev pub set_at : ℕ → ℕ → (ℕ → ℕ) → ℕ → ℕ
set_at pos us ring i = if nat_beq i pos then us else ring i

unfoldable pub record_latency : ℕ → LatencyRing → LatencyRing
record_latency us r =
    let pos = r.lat_pos + 1 in
    let wraps = leb ring_size pos in
    record {
      lat_ring = set_at r.lat_pos us r.lat_ring;
      lat_pos = if wraps then 0 else pos;
      lat_full = if wraps then true else r.lat_full;
    }

-- `n` in Percentiles.
unfoldable pub sample_count : LatencyRing → ℕ
sample_count r = if r.lat_full then ring_size else r.lat_pos

-- The ring after some durations were recorded, the newest first.
unfoldable pub ring_of : List ℕ → LatencyRing
ring_of [] = new_ring
ring_of (us ∷ earlier) = record_latency us (ring_of earlier)
