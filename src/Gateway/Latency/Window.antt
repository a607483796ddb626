-- ===== src/Gateway/Latency/Window.antt =====
-- The samples of Percentiles are the 2048 newest durations, or all of them while there are fewer.
use cloud_credit_system.Common.{
  ℕ, zero, suc, ◌+◌, ◌-◌, ◌%◌, ◌≤◌, ◌<◌, ◌≡◌, ◌∙◌, refl, ap, inl, inr, Bool, true, false, some,
  List, [], ◌∷◌, arith, length, get_elem?, take, nat_beq_iff, leb, nat_beq, Bool-cases,
}
use cloud_credit_system.Gateway.Latency.{
  LatencyRing, ring_size, set_at, new_ring, record_latency, sample_count, ring_of,
}
use cloud_credit_system.Gateway.Latency.Samples.{at_place, newest_in_ring}
use cloud_credit_system.Gateway.Latency.Percentiles.{samples_from, samples}

abbrev pub one_if : Bool → ℕ
one_if true = 1
one_if false = 0

-- How many numbers pass a test.
abbrev pub count_if : (ℕ → Bool) → List ℕ → ℕ
count_if p [] = 0
count_if p (x ∷ xs) = one_if (p x) + count_if p xs

reaches : {m n : ℕ} → leb m n ≡ true → m ≤ n
reaches h = ground (arith, h)

falls_short : {m n : ℕ} → leb m n ≡ false → n < m
falls_short h = ground (arith, h)

set_at_here : (pos d : ℕ) (ring : ℕ → ℕ) → set_at pos d ring (0 + pos) ≡ d
set_at_here pos d ring = ground arith

module _ (p : ℕ → Bool) where
  take_all : (n : ℕ) (ds : List ℕ) → length ds ≤ n → take n ds ≡ ds
  take_all zero [] h = refl
  take_all zero (d ∷ ds) h = absurd (omega arith)
  take_all (suc n) [] h = refl
  take_all (suc n) (d ∷ ds) h = ap (λ t. d ∷ t) (take_all n ds (omega (arith, h)))

  -- The last of the first `n + 1`.
  take_last :
      (n : ℕ) (ds : List ℕ)
      → n < length ds
      → (x : ℕ) × (get_elem? ds n ≡ some x)
        × (count_if p (take (suc n) ds) ≡ one_if (p x) + count_if p (take n ds))
  take_last n [] h = absurd (omega arith)
  take_last zero (d ∷ ds) h = (d, refl, refl)
  take_last (suc n) (d ∷ ds) h =
      let (x, at, more) = take_last n ds (omega (arith, h)) in (x, at, omega (arith, more))

  -- A place outside the samples does not count; one inside is replaced.
  count-set_outside :
      (pos d : ℕ) (ring : ℕ → ℕ) (n i : ℕ)
      → ((j : ℕ) → i ≤ j → j < i + n → (nat_beq j pos ≡ false))
      → count_if p (samples_from (set_at pos d ring) n i) ≡ count_if p (samples_from ring n i)
  unfolding samples_from
  count-set_outside pos d ring zero i h = refl
  count-set_outside pos d ring (suc n) i h =
      let here = h i (omega arith) (omega arith) in
      let rest =
        count-set_outside pos d ring n (suc i) (λ j low high. h j (omega arith) (omega arith)) in
      ground (arith, here, rest)

  count-set_inside :
      (pos d : ℕ) (ring : ℕ → ℕ) (n i : ℕ)
      → i ≤ pos
      → pos < i + n
      → one_if (p (ring pos)) + count_if p (samples_from (set_at pos d ring) n i)
        ≡ one_if (p d) + count_if p (samples_from ring n i)
  unfolding samples_from
  count-set_inside pos d ring zero i low high = absurd (omega arith)
  count-set_inside pos d ring (suc n) i low high = elim (Bool-cases (nat_beq i pos)) [
    | inl same ↦
        let at : i ≡ pos = (nat_beq_iff i pos).0 same in
        let here = ap (λ k. one_if (p (ring k))) at in
        let rest = count-set_outside pos d ring n (suc i) (λ j l h. ground (arith, at, l)) in
        rw same (omega (arith, here, rest))
    | inr other ↦
        let apart : suc i ≤ pos = ground (arith, other, low) in
        let rest = count-set_inside pos d ring n (suc i) apart (omega (arith, high)) in
        rw other (omega (arith, rest))
  ]

  count-grow :
      (ring : ℕ → ℕ) (n i : ℕ)
      → count_if p (samples_from ring (suc n) i)
        ≡ one_if (p (ring (i + n))) + count_if p (samples_from ring n i)
  unfolding samples_from
  count-grow ring zero i = ap (λ k. one_if (p (ring k)) + 0) (omega arith)
  count-grow ring (suc n) i =
      let rest = count-grow ring n (suc i) in
      let same : suc i + n ≡ i + suc n = omega arith in
      let place = ap (λ k. one_if (p (ring k))) same in omega (arith, rest, place)

  module _ (r : LatencyRing) (d : ℕ) (placed : r.lat_pos < ring_size) where
    -- Until the ring is full, a duration is one more sample.
    count-record_open :
        r.lat_full ≡ false
        → count_if p (samples (record_latency d r)) ≡ one_if (p d) + count_if p (samples r)
    unfolding samples sample_count record_latency
    count-record_open room =
        let ring = set_at r.lat_pos d r.lat_ring in
        let grown = count-grow ring r.lat_pos 0 in
        let before =
          count-set_outside r.lat_pos d r.lat_ring r.lat_pos 0 (λ j l h. ground (arith, h)) in
        let size : sample_count (record_latency d r) ≡ suc r.lat_pos =
          ground (arith, room, placed) in
        let here : one_if (p (ring (0 + r.lat_pos))) ≡ one_if (p d) =
          ap (λ x. one_if (p x)) (set_at_here r.lat_pos d r.lat_ring) in
        rw (size, room) (omega (arith, grown, before, here))

    -- Then it takes the place of the oldest.
    count-record_full :
        r.lat_full ≡ true
        → one_if (p (r.lat_ring r.lat_pos)) + count_if p (samples (record_latency d r))
          ≡ one_if (p d) + count_if p (samples r)
    unfolding samples sample_count record_latency
    count-record_full full =
        let size : sample_count (record_latency d r) ≡ ring_size = ground (arith, full) in
        rw (size, full) (count-set_inside r.lat_pos d r.lat_ring ring_size 0 (omega arith) placed)

  pub window : (ds : List ℕ) → count_if p (samples (ring_of ds)) ≡ count_if p (take ring_size ds)
  unfolding samples sample_count ring_of record_latency new_ring samples_from
  window [] = refl
  window (d ∷ ds) =
      let r = ring_of ds in
      let (pos, full) = at_place ds in
      let placed : r.lat_pos < ring_size = omega (arith, pos) in
      let earlier = window ds in
      elim (Bool-cases (leb ring_size (length ds))) [
        | inl many ↦
            let (x, at, more) = take_last 2047 ds (reaches many) in
            let oldest = newest_in_ring ds 2047 x (omega arith) at in
            let same : r.lat_pos ≡ (length ds - ring_size) % ring_size =
              omega (arith, pos, reaches many) in
            let gone = ap (λ i. one_if (p (r.lat_ring i))) same ∙ ap (λ y. one_if (p y)) oldest in
            let replaced = count-record_full r d placed (full ∙ many) in
            omega (arith, gone, replaced, more, earlier)
        | inr few ↦
            let below = falls_short few in
            let added = count-record_open r d placed (full ∙ few) in
            let all = ap (count_if p) (take_all 2047 ds (omega (arith, below))) in
            let all' = ap (count_if p) (take_all ring_size ds (omega (arith, below))) in
            omega (arith, added, all, all', earlier)
      ]
