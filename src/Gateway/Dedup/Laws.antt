-- ===== src/Gateway/Dedup/Laws.antt =====
-- What MemDedup rejects, and what a prune forgets.
use cloud_credit_system.Common.{
  ℕ, ◌+◌, ◌≤◌, ◌≡◌, ◌↔◌, refl, sym, inl, inr, Bool, true, false, Option, none, some, List, [], ◌∷◌,
  arith, nat_key, nat_beq, ltb, if◌then◌else◌, Option-cases, Bool-cases, ◌∙◌,
}
use cloud_credit_system.Common.Maps.{Map, lookup, lookup-insert, IsUnique}
use cloud_credit_system.Accounting.Workflow.Seqs.{later, later_assoc, later-none}
use cloud_credit_system.Gateway.Dedup.{
  DedupEntry, MemDedup, new_mem_dedup, is_new, is_duplicate, prune_entries, prune, Check, check_all,
}

abbrev pub seq_of : Option DedupEntry → Option ℕ
seq_of none = none
seq_of (some e) = some e.seq

-- The highest sequence number that was asked about for a cluster.
abbrev pub highest_checked : ℕ → List Check → Option ℕ
highest_checked c [] = none
highest_checked c (k ∷ ks) =
    if nat_beq k.cluster c then later (some k.seq) (highest_checked c ks) else highest_checked c ks

pub seq-is_duplicate :
    (c : ℕ) (k : Check) (d : MemDedup)
    → seq_of (lookup c (is_duplicate k.cluster k.seq k.now d).1.entries) ≡ (
        if nat_beq k.cluster c
        then later (seq_of (lookup c d.entries)) (some k.seq)
        else seq_of (lookup c d.entries))
unfolding is_duplicate
seq-is_duplicate c k d = elim (Option-cases (lookup k.cluster d.entries)) [
  | inl e ↦
      ground
        (arith, e, lookup-insert k.cluster c (record { seq = k.seq; seen_at = k.now }) d.entries)
  | inr (p, e) ↦
      ground
        (arith, e, lookup-insert k.cluster c (record { seq = k.seq; seen_at = k.now }) d.entries)
]

seq-check_all :
    (c : ℕ) (ks : List Check) (d : MemDedup)
    → seq_of (lookup c (check_all ks d).entries)
      ≡ later (seq_of (lookup c d.entries)) (highest_checked c ks)
unfolding check_all
seq-check_all c [] d = sym (later-none (seq_of (lookup c d.entries)))
seq-check_all c (k ∷ ks) d =
    let (_, d') = is_duplicate k.cluster k.seq k.now d in
    seq-check_all c ks d'
    ∙ rw (seq-is_duplicate c k d) (elim (Bool-cases (nat_beq k.cluster c)) [
      | inl e ↦ rw e (later_assoc (seq_of (lookup c d.entries)) _ _)
      | inr e ↦ rw e
    ])

pub duplicate-is_new :
    (c n now : ℕ) (d : MemDedup)
    → (is_duplicate c n now d).0 ≡ (if is_new (lookup c d.entries) n then false else true)
unfolding is_duplicate
duplicate-is_new c n now d = ground arith

-- `n` is not above a number that was seen.
abbrev pub known : Option ℕ → ℕ → Bool
known none n = false
known (some p) n = if ltb p n then false else true

known_iff : (o : Option ℕ) (n : ℕ) → (known o n ≡ true) ↔ ((p : ℕ) × (o ≡ some p) × (n ≤ p))
known_iff none n = (λ h. absurd (cc h), λ h. absurd (cc h.1))
known_iff (some q) n =
    (λ h. (q, refl, ground arith), λ (p, e, le). let same : q ≡ p = ground arith in ground arith)

pub known_of_entry :
    (o : Option DedupEntry) (n : ℕ) → (if is_new o n then false else true) ≡ known (seq_of o) n
known_of_entry none n = refl
known_of_entry (some e) n = refl

-- For the deduplicator in memory, as long as nothing is pruned: a heartbeat is called a duplicate exactly when its cluster has already
-- asked about the same or a higher sequence number; what other clusters have sent does not matter.
pub is_duplicate_iff :
    (c n now ttl : ℕ) (ks : List Check)
    → ((is_duplicate c n now (check_all ks (new_mem_dedup ttl))).0 ≡ true)
      ↔ ((p : ℕ) × (highest_checked c ks ≡ some p) × (n ≤ p))
unfolding new_mem_dedup
is_duplicate_iff c n now ttl ks =
    let d = check_all ks (new_mem_dedup ttl) in
    rw
      (
        duplicate-is_new c n now d,
        known_of_entry (lookup c d.entries) n,
        seq-check_all c ks (new_mem_dedup ttl),
      )
      (known_iff (highest_checked c ks) n)

module _ (ttl now : ℕ) where
  prune_missing :
      (c : ℕ) (m : Map ℕ DedupEntry) → lookup c m ≡ none → lookup c (prune_entries ttl now m) ≡ none
  unfolding prune_entries
  prune_missing c [] h = refl
  prune_missing c ((k, x) ∷ rest) h = ground (arith, prune_missing c rest)

  prune_found :
      (c : ℕ) (m : Map ℕ DedupEntry) (e : DedupEntry)
      → IsUnique m
      → lookup c m ≡ some e
      → lookup c (prune_entries ttl now m) ≡ (if ltb (e.seen_at + ttl) now then none else some e)
  unfolding prune_entries
  prune_found c [] e u h = cc
  prune_found c ((k, x) ∷ rest) e u h =
      ground (arith, prune_missing k rest, prune_found c rest e u.1)

-- One tick of the prune loop forgets a cluster exactly when it was last seen more than the TTL ago,
-- and keeps its entry as it is otherwise. The list of entries names no cluster twice.
pub lookup-prune :
    (c now : ℕ) (d : MemDedup) {e : DedupEntry}
    → IsUnique d.entries
    → lookup c d.entries ≡ some e
    → lookup c (prune now d).entries ≡ (if ltb (e.seen_at + d.ttl) now then none else some e)
unfolding prune
lookup-prune c now d {e} u found = prune_found d.ttl now c d.entries e u found
