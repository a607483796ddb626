-- ===== src/Tests/Latency.antt =====
-- The latency ring.
use cloud_credit_system.Common.{
  ℕ, ◌*◌, ◌≤◌, ◌<◌, ◌≡◌, refl, some, List, [], ◌∷◌, arith, length, take,
}
use cloud_credit_system.Gateway.Latency.{
  LatencyRing, ring_size, new_ring, record_latency, sample_count, ring_of,
}
use cloud_credit_system.Gateway.Latency.Percentiles.{
  samples_from, samples, insert_sorted, sort, pick, percentiles,
}
use cloud_credit_system.Gateway.Latency.Percentiles.Ranked.{count_le, count_ge}
use cloud_credit_system.Gateway.Latency.Percentiles.Recent.{percentiles_of_recent}

-- The definitions that the percentiles of a ring compute with.
computing : Unit {0}
unfolding ring_of record_latency new_ring sample_count samples_from samples insert_sorted sort pick
    percentiles
computing = tt

abbrev durations : List ℕ
durations = 30 ∷ 10 ∷ 20 ∷ 40 ∷ []

abbrev measured : LatencyRing
measured = ring_of durations

upper_median : percentiles measured ≡ some (30, 40)
unfolding computing
upper_median = refl

percentiles_of_recent_example :
    let recent = take ring_size durations in
    (p50 : ℕ) × (p99 : ℕ) × (percentiles measured ≡ some (p50, p99))
    × (length recent < 2 * count_le p50 recent)
    × (length recent ≤ 2 * count_ge p50 recent)
    × (99 * length recent < 100 * count_le p99 recent)
    × (length recent ≤ 100 * count_ge p99 recent)
percentiles_of_recent_example = percentiles_of_recent durations (omega arith)
