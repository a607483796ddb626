-- ===== src/Simulator/Cluster/Numbers.antt =====
-- The sequence numbers that a cluster sends, those it remembers, and those it replays.
use cloud_credit_system.Common.{
  ℕ, zero, suc, ◌+◌, ◌-◌, ◌%◌, ◌≤◌, ◌<◌, ◌≡◌, refl, sym, ap, subst, ◌∙◌, Bool, true, some, List, [],
  ◌∷◌, ◌++◌, arith, All, All-append, All-map, ltb, length, take, if◌then◌else◌, inl, inr,
  Bool-cases,
}
use cloud_credit_system.Common.Int.{u64_mod}
use cloud_credit_system.Simulator.Cluster.{
  Session, ServerResponse, Load, Draws, new_session, count_ack, obey, on_response, keep_recent,
  send_tick, on_tick, on_replay, on_exhaust, step_exhaust, step_idempotency, set_paused, Step,
  response_step, tick_step, replay_step, exhaust_step, drive_step, idempotency_step, pause_step,
  Reach, here, next,
}
use cloud_credit_system.Gateway.Dedup.{Check, new_mem_dedup, check_all, is_duplicate}
use cloud_credit_system.Gateway.Dedup.Laws.{highest_checked, is_duplicate_iff}

-- base + 1, …, base + n.
abbrev pub numbers_from : ℕ → ℕ → List ℕ
numbers_from base zero = []
numbers_from base (suc n) = (base + 1) ∷ numbers_from (base + 1) n

abbrev pub min_10 : ℕ → ℕ
min_10 n = if ltb 10 n then 10 else n

length-numbers_from : (base n : ℕ) → length (numbers_from base n) ≡ n
length-numbers_from base zero = refl
length-numbers_from base (suc n) = ap suc (length-numbers_from (base + 1) n)

numbers_from-append :
    (base n top : ℕ)
    → base + n + 1 ≡ top
    → numbers_from base n ++ (top ∷ []) ≡ numbers_from base (suc n)
numbers_from-append base zero top h = ground arith
numbers_from-append base (suc n) top h = ground (arith, numbers_from-append (base + 1) n top)

numbers_from-le : (base n top : ℕ) → base + n ≤ top → All (λ m. m ≤ top) (numbers_from base n)
numbers_from-le base zero top h = tt
numbers_from-le base (suc n) top h = (omega arith, numbers_from-le (base + 1) n top (omega arith))

All-take : (P : ℕ → Type 0) (n : ℕ) (xs : List ℕ) → All P xs → All P (take n xs)
All-take P zero xs h = tt
All-take P (suc n) [] h = tt
All-take P (suc n) (x ∷ xs) h = (h.0, All-take P n xs h.1)

-- What is remembered after `n` ticks.
abbrev pub remembered : ℕ → List ℕ
remembered n = numbers_from (n - min_10 n) (min_10 n)

remembered_few : (n : ℕ) → n ≤ 10 → remembered n ≡ numbers_from 0 n
remembered_few n h =
    let all : min_10 n ≡ n = ground arith in rw all (ap (λ (b : ℕ). numbers_from b n) (omega arith))

remembered_ten : (n : ℕ) → 10 ≤ n → remembered n ≡ numbers_from (n - 10) 10
remembered_ten n h = let ten : min_10 n ≡ 10 = ground arith in rw ten refl

keep_few :
    (n : ℕ) → n < 10 → keep_recent (numbers_from 0 n ++ ((n + 1) ∷ [])) ≡ numbers_from 0 (suc n)
unfolding keep_recent
keep_few n h =
    rw (numbers_from-append 0 n (n + 1) (omega arith))
      (ground (arith, length-numbers_from 0 (suc n)))

keep_last : (b : ℕ) → keep_recent (numbers_from b 11) ≡ numbers_from (b + 1) 10
unfolding keep_recent
keep_last b = refl

keep_ten :
    (b top : ℕ)
    → b + 11 ≡ top
    → keep_recent (numbers_from b 10 ++ (top ∷ [])) ≡ numbers_from (b + 1) 10
keep_ten b top h = ap keep_recent (numbers_from-append b 10 top (omega arith)) ∙ keep_last b

keep_recent-remembered : (n : ℕ) → keep_recent (remembered n ++ ((n + 1) ∷ [])) ≡ remembered (suc n)
keep_recent-remembered n =
    let add = λ (seqs : List ℕ). keep_recent (seqs ++ ((n + 1) ∷ [])) in
    elim (Bool-cases (ltb n 10)) [
      | inl few ↦
          ap add (remembered_few n (ground arith))
          ∙ keep_few n (ground arith)
          ∙ sym (remembered_few (suc n) (ground arith))
      | inr many ↦
          let enough : 10 ≤ n = ground arith in
          ap add (remembered_ten n enough)
          ∙ keep_ten (n - 10) (n + 1) (omega arith)
          ∙ ap (λ (b : ℕ). numbers_from b 10) (omega arith)
          ∙ sym (remembered_ten (suc n) (omega arith))
    ]

-- The numbers of a session, as long as its counter has not wrapped round.
pub record IsCounted (s : Session) : Type 0 where
  pub seq_is : s.cluster.seq ≡ s.ticks
  pub recent_is : s.cluster.recent_seqs ≡ remembered s.ticks

-- What an event does to the ticks: nothing, or one more.
data Ticks (s s' : Session) : Type 0 where
  quiet :
      s'.ticks ≡ s.ticks
      → s'.cluster.seq ≡ s.cluster.seq
      → s'.cluster.recent_seqs ≡ s.cluster.recent_seqs
      → Ticks s s'
  ticked :
      s'.ticks ≡ suc s.ticks
      → s'.cluster.seq ≡ (s.cluster.seq + 1) % u64_mod
      → s'.cluster.recent_seqs ≡ keep_recent (s.cluster.recent_seqs ++ (s'.cluster.seq ∷ []))
      → Ticks s s'

on_response-Ticks : (r : ServerResponse) (s : Session) → Ticks s (on_response r s)
unfolding on_response count_ack obey
on_response-Ticks r s = quiet (ground arith) (ground arith) (ground arith)

on_tick-Ticks :
    (load : Load) (d : Draws) (delivered : Bool) (s : Session)
    → Ticks s (on_tick load d delivered s)
unfolding on_tick send_tick
on_tick-Ticks load d delivered s = elim (Bool-cases s.paused) [
  | inl p ↦ rw p (quiet refl refl refl)
  | inr p ↦ elim (Bool-cases s.cluster.stopped) [
    | inl q ↦ rw (p, q) (quiet refl refl refl)
    | inr q ↦ rw (p, q) (ticked refl refl refl)
  ]
]

Step-Ticks : {load : Load} {s s' : Session} → Step load s s' → Ticks s s'
unfolding on_replay on_exhaust step_exhaust step_idempotency set_paused
Step-Ticks (response_step r s) = on_response-Ticks r s
Step-Ticks {load} (tick_step d delivered s e) = on_tick-Ticks load d delivered s
Step-Ticks (replay_step n rest s e f) = quiet refl refl refl
Step-Ticks (exhaust_step s e f) = quiet refl refl refl
Step-Ticks (drive_step s e) = quiet refl refl refl
Step-Ticks (idempotency_step s) = quiet refl refl refl
Step-Ticks (pause_step b s) = quiet refl refl refl

Ticks-le : {s s' : Session} → Ticks s s' → s.ticks ≤ s'.ticks
Ticks-le (quiet t e f) = omega arith
Ticks-le (ticked t e f) = omega arith

Ticks-IsCounted : {s s' : Session} → Ticks s s' → IsCounted s → s'.ticks < u64_mod → IsCounted s'
Ticks-IsCounted (quiet t e f) h room = ground (arith, h.seq_is, h.recent_is)
Ticks-IsCounted {s} {s'} (ticked t e f) h room =
    let seq_is : s'.cluster.seq ≡ s.ticks + 1 = omega (arith, h.seq_is) in
    record {
      seq_is = omega arith;
      recent_is =
          f ∙ rw (h.recent_is, seq_is) (keep_recent-remembered s.ticks) ∙ ap remembered (sym t);
    }

Reach-IsCounted :
    {load : Load} {id : ℕ} {s : Session} → Reach load id s → s.ticks < u64_mod → IsCounted s
unfolding new_session
Reach-IsCounted here room = record { seq_is = refl; recent_is = refl }
Reach-IsCounted (next r step) room =
    let t = Step-Ticks step in
    Ticks-IsCounted t (Reach-IsCounted r (omega (arith, Ticks-le t))) room

abbrev AllSent : Session → List ℕ → Type 0
AllSent s ns = All (λ n. n ≤ s.ticks) ns

AllSent-later : (s s' : Session) (ns : List ℕ) → s.ticks ≤ s'.ticks → AllSent s ns → AllSent s' ns
AllSent-later s s' ns h sent = All-map ns (λ n (le : n ≤ s.ticks). omega arith) sent

remembered-AllSent : (s : Session) → AllSent s (remembered s.ticks)
remembered-AllSent s = numbers_from-le _ (min_10 s.ticks) s.ticks (ground arith)

replay_ch-on_response :
    (r : ServerResponse) (s : Session) → (on_response r s).cluster.replay_ch ≡ s.cluster.replay_ch
unfolding on_response count_ack obey
replay_ch-on_response r s = ground arith

replay_ch-on_tick :
    (load : Load) (d : Draws) (delivered : Bool) (s : Session)
    → (on_tick load d delivered s).cluster.replay_ch ≡ s.cluster.replay_ch
unfolding on_tick send_tick
replay_ch-on_tick load d delivered s = ground arith

unchanged-AllSent :
    (s s' : Session)
    → s'.cluster.replay_ch ≡ s.cluster.replay_ch
    → Ticks s s'
    → AllSent s s.cluster.replay_ch
    → AllSent s' s'.cluster.replay_ch
unchanged-AllSent s s' same t h = rw same (AllSent-later s s' s.cluster.replay_ch (Ticks-le t) h)

Step-AllSent :
    {load : Load} {s s' : Session}
    → Step load s s'
    → IsCounted s
    → AllSent s s.cluster.replay_ch
    → AllSent s' s'.cluster.replay_ch
unfolding on_replay on_exhaust step_exhaust step_idempotency set_paused
Step-AllSent (response_step r s) c h =
    unchanged-AllSent s (on_response r s) (replay_ch-on_response r s) (on_response-Ticks r s) h
Step-AllSent {load} (tick_step d delivered s e) c h =
    unchanged-AllSent s (on_tick load d delivered s) (replay_ch-on_tick load d delivered s)
      (on_tick-Ticks load d delivered s) h
Step-AllSent (replay_step n rest s e f) c h =
    let both : AllSent s (n ∷ rest) = subst (λ (ns : List ℕ). AllSent s ns) f h in both.1
Step-AllSent (exhaust_step s e f) c h = h
Step-AllSent (drive_step s e) c h = h
Step-AllSent (idempotency_step s) c h =
    All-append (λ n. n ≤ s.ticks) s.cluster.replay_ch (take 3 s.cluster.recent_seqs) h
      (All-take (λ n. n ≤ s.ticks) 3 s.cluster.recent_seqs (rw c.recent_is (remembered-AllSent s)))
Step-AllSent (pause_step b s) c h = h

Reach-AllSent :
    {load : Load} {id : ℕ} {s : Session}
    → Reach load id s
    → s.ticks < u64_mod
    → AllSent s s.cluster.replay_ch
unfolding new_session
Reach-AllSent here room = tt
Reach-AllSent (next r step) room =
    let grows = Ticks-le (Step-Ticks step) in
    Step-AllSent step (Reach-IsCounted r (omega arith)) (Reach-AllSent r (omega arith))

-- After n ticks that sent, n below 2^64, the counter of a cluster is n, and it remembers the last ten of
-- its numbers in order, or all of them where there are fewer.
pub seqs_remembered :
    {load : Load} {id : ℕ} {s : Session}
    → Reach load id s
    → s.ticks < u64_mod
    → (s.cluster.seq ≡ s.ticks) × (s.cluster.recent_seqs ≡ remembered s.ticks)
seqs_remembered r room = let c = Reach-IsCounted r room in (c.seq_is, c.recent_is)

-- Across the wire, to a gateway with the deduplicator in memory, of which no entry is pruned: once it has
-- been asked about the latest number of a cluster, by whatever requests, it calls every number that
-- the cluster replays a duplicate.
pub replay_is_duplicate :
    {load : Load} {id : ℕ} {s : Session} (n now ttl : ℕ) (rest : List ℕ) (ks : List Check) {top : ℕ}
    → Reach load id s
    → s.ticks < u64_mod
    → s.cluster.replay_ch ≡ n ∷ rest
    → highest_checked id ks ≡ some top
    → s.ticks ≤ top
    → (is_duplicate id n now (check_all ks (new_mem_dedup ttl))).0 ≡ true
replay_is_duplicate {id} {s} n now ttl rest ks {top} r room waits asked latest =
    let old : AllSent s (n ∷ rest) =
      subst (λ (ns : List ℕ). AllSent s ns) waits (Reach-AllSent r room) in
    (is_duplicate_iff id n now ttl ks).1 (top, asked, omega (arith, old.0))
