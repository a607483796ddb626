-- ===== src/Gateway/Dedup/Redis.antt =====
-- internal/gateway/dedup.go, redisDedup: the deduplicator on Valkey. The client's two commands are
-- parameters, on an abstract store; the key of a cluster is the cluster's ID.
use cloud_credit_system.Common.{ℕ, Bool, false, Option, none, some, nat_beq}

-- ZADD with GT and CH of the one member of a cluster's set: `none` is an error, else the number of members
-- that were changed. EXPIRE, whose result is ignored. Nothing is assumed of them: a set may run out at
-- any time.
pub record Valkey (W : Type 0) : Type 0 where
  pub zadd_gt_ch : ℕ → ℕ → W → Option ℕ × W
  pub expire : ℕ → ℕ → W → W

-- `float_of n` is the integer that `float64(n)` stands for.
module _ (float_of : ℕ → ℕ) {W : Type 0} (valkey : Valkey W) (ttl : ℕ) where
  -- IsDuplicate. If Valkey does not answer, nothing is a duplicate.
  unfoldable pub redis_is_duplicate : ℕ → ℕ → W → Bool × W
  redis_is_duplicate cluster seq w =
      let (changed, w') = valkey.zadd_gt_ch cluster (float_of seq) w in
      elim changed [ none ↦ (false, w') | some n ↦ (nat_beq n 0, valkey.expire cluster ttl w') ]
