-- ===== src/Gateway/Latency/Percentiles/Recent.antt =====
-- The ranks of the percentiles among the durations that were recorded last.
use cloud_credit_system.Common.{
  ℕ, ◌*◌, ◌≤◌, ◌<◌, ◌≡◌, ◌∙◌, sym, refl, true, some, List, [], ◌∷◌, arith, length, take, leb,
}
use cloud_credit_system.Gateway.Latency.{ring_size, ring_of}
use cloud_credit_system.Gateway.Latency.Samples.{sample_count-ring_of}
use cloud_credit_system.Gateway.Latency.Window.{count_if, window}
use cloud_credit_system.Gateway.Latency.Percentiles.{samples, percentiles}
use cloud_credit_system.Gateway.Latency.Percentiles.Ranked.{count_le, count_ge, samples_ranked}

count_le-eq-count_if : (x : ℕ) (ys : List ℕ) → count_le x ys ≡ count_if (λ y. leb y x) ys
count_le-eq-count_if x [] = refl
count_le-eq-count_if x (y ∷ ys) = let rest = count_le-eq-count_if x ys in ground (arith, rest)

count_ge-eq-count_if : (x : ℕ) (ys : List ℕ) → count_ge x ys ≡ count_if (λ y. leb x y) ys
count_ge-eq-count_if x [] = refl
count_ge-eq-count_if x (y ∷ ys) = let rest = count_ge-eq-count_if x ys in ground (arith, rest)

length-eq-count_if : (ys : List ℕ) → length ys ≡ count_if (λ y. true) ys
length-eq-count_if [] = refl
length-eq-count_if (y ∷ ys) = let rest = length-eq-count_if ys in omega (arith, rest)

module _ (ds : List ℕ) (x : ℕ) where
  le_recent : count_le x (samples (ring_of ds)) ≡ count_le x (take ring_size ds)
  le_recent =
      count_le-eq-count_if x (samples (ring_of ds))
      ∙ window (λ y. leb y x) ds
      ∙ sym (count_le-eq-count_if x (take ring_size ds))

  ge_recent : count_ge x (samples (ring_of ds)) ≡ count_ge x (take ring_size ds)
  ge_recent =
      count_ge-eq-count_if x (samples (ring_of ds))
      ∙ window (λ y. leb x y) ds
      ∙ sym (count_ge-eq-count_if x (take ring_size ds))

length_recent : (ds : List ℕ) → length (samples (ring_of ds)) ≡ length (take ring_size ds)
length_recent ds =
    length-eq-count_if (samples (ring_of ds))
    ∙ window (λ y. true) ds
    ∙ sym (length-eq-count_if (take ring_size ds))

-- Once a duration was recorded, Percentiles is in range and returns p50 and p99. Of the durations recorded
-- last, at most 2048 of them, more than half are at most p50, at least half are at least p50, more than
-- 99 in a hundred are at most p99, and at least one in a hundred is at least p99.
pub percentiles_of_recent :
    (ds : List ℕ)
    → 0 < length ds
    → let recent = take ring_size ds in
      (p50 : ℕ) × (p99 : ℕ) × (percentiles (ring_of ds) ≡ some (p50, p99))
      × (length recent < 2 * count_le p50 recent)
      × (length recent ≤ 2 * count_ge p50 recent)
      × (99 * length recent < 100 * count_le p99 recent)
      × (length recent ≤ 100 * count_ge p99 recent)
percentiles_of_recent ds recorded =
    let sized = sample_count-ring_of ds in
    let (p50, p99, returned, le, ge, le', ge') =
      samples_ranked (ring_of ds) (ground (arith, sized, recorded)) in
    let n = length_recent ds in
    (
      p50,
      p99,
      returned,
      omega (arith, n, le, le_recent ds p50),
      omega (arith, n, ge, ge_recent ds p50),
      omega (arith, n, le', le_recent ds p99),
      omega (arith, n, ge', ge_recent ds p99),
    )
