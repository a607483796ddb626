-- ===== src/Gateway/Latency/Percentiles/Ranked.antt =====
-- The ranks of the percentiles among the samples.
use cloud_credit_system.Common.{
  ℕ, zero, suc, ◌+◌, ◌*◌, ◌/◌, ◌≤◌, ◌<◌, ◌≡◌, refl, inl, inr, some, List, [], ◌∷◌, All, All-map,
  arith, length, get_elem?, leb, if◌then◌else◌, Bool-cases,
}
use cloud_credit_system.Gateway.Latency.{LatencyRing, sample_count}
use cloud_credit_system.Gateway.Latency.Percentiles.{
  samples_from, samples, insert_sorted, sort, pick, percentiles,
}

-- How many numbers are at most `x`, and how many at least.
abbrev pub count_le : ℕ → List ℕ → ℕ
count_le x [] = 0
count_le x (y ∷ ys) = if leb y x then suc (count_le x ys) else count_le x ys

abbrev pub count_ge : ℕ → List ℕ → ℕ
count_ge x [] = 0
count_ge x (y ∷ ys) = if leb x y then suc (count_ge x ys) else count_ge x ys

counts-insert_sorted :
    (x a : ℕ) (ys : List ℕ)
    → (count_le x (insert_sorted a ys) ≡ count_le x (a ∷ ys))
      × (count_ge x (insert_sorted a ys) ≡ count_ge x (a ∷ ys))
      × (length (insert_sorted a ys) ≡ suc (length ys))
unfolding insert_sorted
counts-insert_sorted x a [] = (refl, refl, refl)
counts-insert_sorted x a (y ∷ ys) =
    let (le, ge, n) = counts-insert_sorted x a ys in
    (ground (arith, le), ground (arith, ge), ground (arith, n))

counts-sort :
    (x : ℕ) (ys : List ℕ)
    → (count_le x (sort ys) ≡ count_le x ys)
      × (count_ge x (sort ys) ≡ count_ge x ys)
      × (length (sort ys) ≡ length ys)
unfolding sort
counts-sort x [] = (refl, refl, refl)
counts-sort x (y ∷ ys) =
    let (le, ge, n) = counts-sort x ys in
    let (le', ge', n') = counts-insert_sorted x y (sort ys) in
    (ground (arith, le, le'), ground (arith, ge, ge'), ground (arith, n, n'))

abbrev IsSorted : List ℕ → Type 0
IsSorted [] = Unit {0}
IsSorted (x ∷ xs) = All (λ y. x ≤ y) xs × IsSorted xs

above-insert_sorted :
    (b a : ℕ) (ys : List ℕ) → b ≤ a → All (λ z. b ≤ z) ys → All (λ z. b ≤ z) (insert_sorted a ys)
unfolding insert_sorted
above-insert_sorted b a [] low h = (low, tt)
above-insert_sorted b a (y ∷ ys) low (first, h) =
    let rest = above-insert_sorted b a ys low h in
    elim (Bool-cases (leb a y)) [
      | inl below ↦ rw below (low, (first, h))
      | inr over ↦ rw over (first, rest)
    ]

insert_sorted-IsSorted : (a : ℕ) (ys : List ℕ) → IsSorted ys → IsSorted (insert_sorted a ys)
unfolding insert_sorted
insert_sorted-IsSorted a [] h = (tt, tt)
insert_sorted-IsSorted a (y ∷ ys) (low, h) =
    let rest = insert_sorted-IsSorted a ys h in
    elim (Bool-cases (leb a y)) [
      | inl below ↦
          let under : a ≤ y = ground (arith, below) in
          rw below ((under, All-map ys (λ z l. omega (arith, l, under)) low), (low, h))
      | inr over ↦ rw over (above-insert_sorted y a ys (ground (arith, over)) low, rest)
    ]

sort-IsSorted : (ys : List ℕ) → IsSorted (sort ys)
unfolding sort
sort-IsSorted [] = tt
sort-IsSorted (y ∷ ys) = insert_sorted-IsSorted y (sort ys) (sort-IsSorted ys)

length-samples_from : (ring : ℕ → ℕ) (n i : ℕ) → length (samples_from ring n i) ≡ n
unfolding samples_from
length-samples_from ring zero i = refl
length-samples_from ring (suc n) i =
    let rest = length-samples_from ring n (suc i) in omega (arith, rest)

above_at : (b k x : ℕ) (ys : List ℕ) → All (λ z. b ≤ z) ys → get_elem? ys k ≡ some x → b ≤ x
above_at b k x [] h at = absurd (cc at)
above_at b zero x (y ∷ ys) (first, h) at = ground (arith, at, first)
above_at b (suc k) x (y ∷ ys) (first, h) at = above_at b k x ys h at

count_ge-All : (x : ℕ) (ys : List ℕ) → All (λ z. x ≤ z) ys → count_ge x ys ≡ length ys
count_ge-All x [] h = refl
count_ge-All x (y ∷ ys) (first, h) = let rest = count_ge-All x ys h in ground (arith, first, rest)

-- At least `k + 1` numbers are at most the one at `k`, and all from `k` on are at least it.
ranked :
    (ys : List ℕ) (k : ℕ)
    → IsSorted ys
    → k < length ys
    → (x : ℕ) × (get_elem? ys k ≡ some x) × (k < count_le x ys) × (length ys ≤ k + count_ge x ys)
ranked [] k h inside = absurd (omega arith)
ranked (y ∷ ys) zero (low, h) inside =
    let all = count_ge-All y ys low in (y, refl, ground arith, ground (arith, all))
ranked (y ∷ ys) (suc k) (low, h) inside =
    let (x, at, le, ge) = ranked ys k h (omega (arith, inside)) in
    let under = above_at y k x ys low at in (x, at, ground (arith, le, under), ground (arith, ge))

-- Where there are samples: how many are at most a percentile, and at least it.
pub samples_ranked :
    (r : LatencyRing)
    → 0 < sample_count r
    → (p50 : ℕ) × (p99 : ℕ) × (percentiles r ≡ some (p50, p99))
      × (length (samples r) < 2 * count_le p50 (samples r))
      × (length (samples r) ≤ 2 * count_ge p50 (samples r))
      × (99 * length (samples r) < 100 * count_le p99 (samples r))
      × (length (samples r) ≤ 100 * count_ge p99 (samples r))
unfolding percentiles pick samples
samples_ranked r some_there =
    let n = sample_count r in
    let xs = samples_from r.lat_ring n 0 in
    let sized = length-samples_from r.lat_ring n 0 in
    let (_, _, kept) = counts-sort 0 xs in
    let sorted = sort-IsSorted xs in
    let (p50, at, le, ge) =
      ranked (sort xs) (n / 2) sorted (omega (arith, sized, kept, some_there)) in
    let (p99, at', le', ge') =
      ranked (sort xs) (n * 99 / 100) sorted (omega (arith, sized, kept, some_there)) in
    let (cl, cg, _) = counts-sort p50 xs in
    let (cl', cg', _) = counts-sort p99 xs in
    (
      p50,
      p99,
      ground (arith, at, at', some_there),
      omega (arith, sized, kept, le, cl),
      omega (arith, sized, kept, ge, cg),
      omega (arith, sized, kept, le', cl'),
      omega (arith, sized, kept, ge', cg'),
    )
