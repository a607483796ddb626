-- ===== src/Gateway/Latency/Percentiles.antt =====
-- Percentiles of internal/gateway/heartbeat_handler.go. For n up to 2048 the products
-- `float64(n)*0.50` and `float64(n)*0.99`, cut to an int, are n / 2 and n * 99 / 100. An index that is
-- out of range is `none`.
pub mod Ranked
pub mod Recent
use cloud_credit_system.Common.{
  ℕ, zero, suc, ◌+◌, ◌*◌, ◌/◌, Option, none, some, List, [], ◌∷◌, get_elem?, leb, nat_beq,
  if◌then◌else◌,
}
use cloud_credit_system.Gateway.Latency.{LatencyRing, sample_count}

-- `copy(buf, h.latRing[:n])`, from the place `i` on.
unfoldable pub samples_from : (ℕ → ℕ) → ℕ → ℕ → List ℕ
samples_from ring zero i = []
samples_from ring (suc left) i = ring i ∷ samples_from ring left (suc i)

unfoldable pub samples : LatencyRing → List ℕ
samples r = samples_from r.lat_ring (sample_count r) 0

-- `sort.Slice` on integers, rising.
unfoldable pub insert_sorted : ℕ → List ℕ → List ℕ
insert_sorted x [] = x ∷ []
insert_sorted x (y ∷ ys) = let rest = insert_sorted x ys in if leb x y then x ∷ y ∷ ys else y ∷ rest

unfoldable pub sort : List ℕ → List ℕ
sort [] = []
sort (x ∷ xs) = insert_sorted x (sort xs)

unfoldable pub pick : List ℕ → ℕ → Option (ℕ × ℕ)
pick buf n = elim (get_elem? buf (n / 2)) [
  | none ↦ none
  | some p50 ↦ elim (get_elem? buf (n * 99 / 100)) [ none ↦ none | some p99 ↦ some (p50, p99) ]
]

unfoldable pub percentiles : LatencyRing → Option (ℕ × ℕ)
percentiles r =
    let n = sample_count r in if nat_beq n 0 then some (0, 0) else pick (sort (samples r)) n
