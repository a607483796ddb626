-- ===== src/Gateway/Stream/Order.antt =====
-- What waits in the channel of a stream.
use cloud_credit_system.Common.{
  ℕ, ◌≤◌, ◌≡◌, ◌≢◌, refl, sym, subst, inl, inr, true, false, Option, none, some, List, [], ◌∷◌,
  arith, All, All-map, ◌∙◌, length, nat_beq, nat_key, Bool-cases, if◌then◌else◌,
}
use cloud_credit_system.Common.Maps.{lookup, insert, lookup-insert}
use cloud_credit_system.Gateway.Dedup.{Check, DedupEntry, MemDedup, is_new, is_duplicate}
use cloud_credit_system.Gateway.Dedup.Laws.{seq_of, seq-is_duplicate}
use cloud_credit_system.Accounting.Workflow.Seqs.{later}
use cloud_credit_system.Gateway.Streams.{StreamManager, register}
use cloud_credit_system.Gateway.Heartbeat.Resolve.{HeartbeatRequest}
use cloud_credit_system.Gateway.Stream.{
  StreamState, sig_ch_size, tail, identify, enqueue, pass_on, count_message, receive, drain,
  ask_elsewhere, StreamEvent, message, taken, asked, stream_step, stream_run, opened,
}
use cloud_credit_system.Gateway.Stream.Queue.{Ascending, Below, pushed, new-Below, pushed_in_order}

-- The number that was last let through, once the stream has a cluster.
abbrev mark : StreamState → Option ℕ
mark s = if nat_beq s.cluster_id 0 then none else seq_of (lookup s.cluster_id s.dedup.entries)

record InOrder (s : StreamState) : Type 0 where
  ascending : Ascending s.sig_ch
  bounded : length s.sig_ch ≤ sig_ch_size
  below : Below (mark s) s.sig_ch

-- The same, for a stream that has its cluster.
record Identified (s : StreamState) : Type 0 where
  named : s.cluster_id ≢ 0
  ascending : Ascending s.sig_ch
  bounded : length s.sig_ch ≤ sig_ch_size
  below : Below (seq_of (lookup s.cluster_id s.dedup.entries)) s.sig_ch

mark_unnamed : (s : StreamState) → nat_beq s.cluster_id 0 ≡ true → mark s ≡ none
mark_unnamed s e = ground (arith, e)

mark_named :
    (s : StreamState)
    → nat_beq s.cluster_id 0 ≡ false
    → mark s ≡ seq_of (lookup s.cluster_id s.dedup.entries)
mark_named s e = ground (arith, e)

Identified-InOrder : (s : StreamState) → Identified s → InOrder s
Identified-InOrder s i =
    let ne : nat_beq s.cluster_id 0 ≡ false = ground (arith, i.named) in
    record {
      ascending = i.ascending;
      bounded = i.bounded;
      below = subst (λ m. Below m s.sig_ch) (sym (mark_named s ne)) i.below;
    }

empty-Below : (m : Option ℕ) → Below m []
empty-Below none = refl
empty-Below (some p) = tt

identify_first :
    (now : ℕ) (req : HeartbeatRequest) (s : StreamState)
    → nat_beq s.cluster_id 0 ≡ true
    → identify now req s ≡ record s {
      cluster_id = req.cluster_id;
      streams = register req.cluster_id now now s.streams;
    }
unfolding identify
identify_first now req s e = rw e refl

identify_later :
    (now : ℕ) (req : HeartbeatRequest) (s : StreamState)
    → nat_beq s.cluster_id 0 ≡ false
    → identify now req s ≡ s
unfolding identify
identify_later now req s e = rw e refl

first_Identified :
    (now : ℕ) (req : HeartbeatRequest) (s : StreamState)
    → req.cluster_id ≢ 0
    → s.sig_ch ≡ []
    → Identified (record s {
      cluster_id = req.cluster_id;
      streams = register req.cluster_id now now s.streams;
    })
first_Identified now req s named empty = record {
  named = named;
  ascending = subst Ascending (sym empty) tt;
  bounded = ground (arith, empty);
  below =
      subst (Below _) (sym empty) (empty-Below (seq_of (lookup req.cluster_id s.dedup.entries)));
}

identify-Identified :
    (now : ℕ) (req : HeartbeatRequest) (s : StreamState)
    → req.cluster_id ≢ 0
    → InOrder s
    → Identified (identify now req s)
identify-Identified now req s named h = elim (Bool-cases (nat_beq s.cluster_id 0)) [
  | inl e ↦
      let empty : s.sig_ch ≡ [] = subst (λ m. Below m s.sig_ch) (mark_unnamed s e) h.below in
      subst Identified (sym (identify_first now req s e)) (first_Identified now req s named empty)
  | inr e ↦ subst Identified (sym (identify_later now req s e)) (record {
    named = ground (arith, e);
    ascending = h.ascending;
    bounded = h.bounded;
    below = subst (λ m. Below m s.sig_ch) (mark_named s e) h.below;
  })
]

-- The state after a request that is let through.
abbrev let_through : ℕ → HeartbeatRequest → StreamState → StreamState
let_through now req s = record s {
  dedup = record s.dedup {
    entries =
        insert s.cluster_id (record { seq = req.sequence_number; seen_at = now }) s.dedup.entries;
  };
  sig_ch = pushed req s.sig_ch;
}

pass_on_new :
    (now : ℕ) (req : HeartbeatRequest) (s : StreamState)
    → is_new (lookup s.cluster_id s.dedup.entries) req.sequence_number ≡ true
    → pass_on req (is_duplicate s.cluster_id req.sequence_number now s.dedup) s
      ≡ let_through now req s
unfolding pass_on enqueue is_duplicate
pass_on_new now req s e = ground (arith, e)

pass_on_old :
    (now : ℕ) (req : HeartbeatRequest) (s : StreamState)
    → is_new (lookup s.cluster_id s.dedup.entries) req.sequence_number ≡ false
    → pass_on req (is_duplicate s.cluster_id req.sequence_number now s.dedup) s ≡ s
unfolding pass_on is_duplicate
pass_on_old now req s e = ground (arith, e)

let_through-Identified :
    (now : ℕ) (req : HeartbeatRequest) (s : StreamState)
    → is_new (lookup s.cluster_id s.dedup.entries) req.sequence_number ≡ true
    → Identified s
    → Identified (let_through now req s)
let_through-Identified now req s e i =
    let lower =
      new-Below (lookup s.cluster_id s.dedup.entries) req.sequence_number s.sig_ch e i.below in
    let (a, l, b) = pushed_in_order req s.sig_ch i.ascending i.bounded lower in
    let entry : DedupEntry = record { seq = req.sequence_number; seen_at = now } in
    let own : seq_of (lookup s.cluster_id (insert s.cluster_id entry s.dedup.entries))
        ≡ some req.sequence_number =
      ground (arith, lookup-insert s.cluster_id s.cluster_id entry s.dedup.entries) in
    record {
      named = i.named;
      ascending = a;
      bounded = l;
      below = subst (λ m. Below m (pushed req s.sig_ch)) (sym own) b;
    }

receive-InOrder :
    (now : ℕ) (req : HeartbeatRequest) (s : StreamState)
    → req.cluster_id ≢ 0
    → InOrder s
    → InOrder (receive now req s)
unfolding receive count_message
receive-InOrder now req s named h =
    let i = identify-Identified now req s named h in
    let t = count_message now (identify now req s) in
    let j : Identified t = record {
      named = i.named;
      ascending = i.ascending;
      bounded = i.bounded;
      below = i.below;
    } in
    elim (Bool-cases (is_new (lookup t.cluster_id t.dedup.entries) req.sequence_number)) [
      | inl e ↦
          Identified-InOrder _ (
            subst Identified (sym (pass_on_new now req t e)) (let_through-Identified now req t e j))
      | inr e ↦ Identified-InOrder _ (subst Identified (sym (pass_on_old now req t e)) j)
    ]

tail-Below : (m : Option ℕ) (xs : List HeartbeatRequest) → Below m xs → Below m (tail xs)
tail-Below m [] b = b
tail-Below none (x ∷ xs) b = absurd (cc b)
tail-Below (some p) (x ∷ xs) b = b.1

tail-Ascending : (xs : List HeartbeatRequest) → Ascending xs → Ascending (tail xs)
tail-Ascending [] a = tt
tail-Ascending (x ∷ xs) a = a.1

tail_le : (xs : List HeartbeatRequest) → length (tail xs) ≤ length xs
tail_le [] = omega arith
tail_le (x ∷ xs) = omega arith

drain-InOrder : (s : StreamState) → InOrder s → InOrder (drain s)
unfolding drain
drain-InOrder s h = record {
  ascending = tail-Ascending s.sig_ch h.ascending;
  bounded = omega (arith, tail_le s.sig_ch, h.bounded);
  below = tail-Below (mark s) s.sig_ch h.below;
}

later-Below :
    (m : Option ℕ) (n : ℕ) (xs : List HeartbeatRequest) → Below m xs → Below (later m (some n)) xs
later-Below none n xs b = subst (λ l. All (λ q. q.sequence_number ≤ n) l) (sym b) tt
later-Below (some p) n xs b = All-map xs (λ q le. omega arith) b

ask_elsewhere-mark :
    (k : Check) (s : StreamState) (xs : List HeartbeatRequest)
    → Below (mark s) xs
    → Below (mark (ask_elsewhere k s)) xs
unfolding ask_elsewhere
ask_elsewhere-mark k s xs b = elim (Bool-cases (nat_beq s.cluster_id 0)) [
  | inl e ↦
      subst (λ m. Below m xs) (sym (mark_unnamed (ask_elsewhere k s) e))
        (subst (λ m. Below m xs) (mark_unnamed s e) b)
  | inr e ↦
      let old = subst (λ m. Below m xs) (mark_named s e) b in
      subst (λ m. Below m xs)
        (sym (mark_named (ask_elsewhere k s) e ∙ seq-is_duplicate s.cluster_id k s.dedup))
        (elim (Bool-cases (nat_beq k.cluster s.cluster_id)) [
          | inl same ↦ rw same (later-Below _ k.seq xs old)
          | inr other ↦ rw other old
        ])
]

ask_elsewhere-InOrder : (k : Check) (s : StreamState) → InOrder s → InOrder (ask_elsewhere k s)
unfolding ask_elsewhere
ask_elsewhere-InOrder k s h = record {
  ascending = h.ascending;
  bounded = h.bounded;
  below = ask_elsewhere-mark k s s.sig_ch h.below;
}

-- Every message names its cluster.
abbrev pub Named : StreamEvent → Type 0
Named (message now req) = req.cluster_id ≢ 0
Named taken = Unit
Named (asked k) = Unit

run-InOrder :
    (es : List StreamEvent) (s : StreamState) → All Named es → InOrder s → InOrder (stream_run es s)
unfolding stream_run stream_step
run-InOrder [] s n h = h
run-InOrder (message now req ∷ es) s n h =
    run-InOrder es (receive now req s) n.1 (receive-InOrder now req s n.0 h)
run-InOrder (taken ∷ es) s n h = run-InOrder es (drain s) n.1 (drain-InOrder s h)
run-InOrder (asked k ∷ es) s n h =
    run-InOrder es (ask_elsewhere k s) n.1 (ask_elsewhere-InOrder k s h)

-- With the deduplicator in memory, while nothing is pruned, and with messages that name a cluster: whatever
-- messages arrive on a stream, whenever the dispatcher takes one, and whatever other streams ask the
-- deduplicator in between, of the same cluster or of others, at most 256 heartbeats wait to be
-- signalled, and their sequence numbers rise strictly in the order in which they will be: none is
-- there twice, and none overtakes another.
pub channel_in_order :
    (d : MemDedup) (m : StreamManager) (count : ℕ) (es : List StreamEvent)
    → All Named es
    → let s = stream_run es (opened d m count) in
      Ascending s.sig_ch × (length s.sig_ch ≤ sig_ch_size)
unfolding opened
channel_in_order d m count es named =
    let start : InOrder (opened d m count) = record {
      ascending = tt;
      bounded = omega arith;
      below = refl;
    } in
    let h = run-InOrder es (opened d m count) named start in (h.ascending, h.bounded)
