-- ===== src/Gateway/Dedup.antt =====
-- internal/gateway/dedup.go, MemDedup: the in-memory deduplicator. `time.Now()` is an argument, in
-- nanoseconds.
pub mod Laws
pub mod Redis
use cloud_credit_system.Common.{
  ℕ, ◌+◌, ◌≤◌, ◌<◌, ◌≡◌, ◌↔◌, refl, sym, inl, inr, Bool, true, false, Option, none, some, List, [],
  ◌∷◌, arith, nat_key, nat_beq, nat_beq_iff, ltb, if◌then◌else◌, Option-cases, Bool-cases, max,
}
use cloud_credit_system.Common.Maps.{Map, lookup, insert, lookup-insert}

pub record DedupEntry : Type 0 where
  pub seq : ℕ
  pub seen_at : ℕ

pub record MemDedup : Type 0 where
  pub entries : Map ℕ DedupEntry
  pub ttl : ℕ

unfoldable pub new_mem_dedup : ℕ → MemDedup
new_mem_dedup ttl = record { entries = []; ttl = ttl }

-- `!ok || seq > e.seq`
abbrev pub is_new : Option DedupEntry → ℕ → Bool
is_new none seq = true
is_new (some e) seq = ltb e.seq seq

unfoldable pub is_duplicate : ℕ → ℕ → ℕ → MemDedup → Bool × MemDedup
is_duplicate cluster seq now d =
    if is_new (lookup cluster d.entries) seq
    then (
      false,
      record d { entries = insert cluster (record { seq = seq; seen_at = now }) d.entries },
    )
    else (true, d)

-- The loop of one tick of `pruneLoop`: `e.seenAt.Before(now - ttl)` deletes the entry.
unfoldable pub prune_entries : ℕ → ℕ → Map ℕ DedupEntry → Map ℕ DedupEntry
prune_entries ttl now [] = []
prune_entries ttl now ((k, e) ∷ rest) =
    if ltb (e.seen_at + ttl) now
    then prune_entries ttl now rest
    else (k, e) ∷ prune_entries ttl now rest

unfoldable pub prune : ℕ → MemDedup → MemDedup
prune now d = record d { entries = prune_entries d.ttl now d.entries }

-- A call of IsDuplicate.
pub record Check : Type 0 where
  pub cluster : ℕ
  pub seq : ℕ
  pub now : ℕ

unfoldable pub check_all : List Check → MemDedup → MemDedup
check_all [] d = d
check_all (c ∷ cs) d = let (_, d') = is_duplicate c.cluster c.seq c.now d in check_all cs d'
