-- ===== src/Accounting/Workflow/Seqs.antt =====
-- What the rounds of the workflow do to `ProcessedSeqs` and `LastAck`, and dedup by them.
use cloud_credit_system.Common.{
  ℕ, ◌≡◌, refl, sym, ap, inl, inr, Option, none, some, List, [], ◌∷◌, arith, Bool-cases,
  Option-cases, nat_key, nat_beq, if◌then◌else◌, max,
}
use cloud_credit_system.Common.Maps.{lookup, lookup-insert}
use cloud_credit_system.Accounting.Signals.{HeartbeatSignal}
use cloud_credit_system.Accounting.Workflow.State.{TenantAccountingState, mark_one, mark_processed}

-- The higher of two sequence numbers, where `none` is "never seen".
abbrev pub later : Option ℕ → Option ℕ → Option ℕ
later none b = b
later (some a) none = some a
later (some a) (some b) = some (max a b)

-- The highest sequence number of a cluster in a batch.
abbrev pub highest : ℕ → List HeartbeatSignal → Option ℕ
highest c [] = none
highest c (hb ∷ hbs) =
    if nat_beq hb.cluster_id c
    then later (some hb.sequence_number) (highest c hbs)
    else highest c hbs

-- The highest sequence number in a batch, of any cluster.
abbrev pub highest_of_all : List HeartbeatSignal → ℕ
highest_of_all [] = 0
highest_of_all (hb ∷ hbs) = max hb.sequence_number (highest_of_all hbs)

pub later_assoc : (a b c : Option ℕ) → later (later a b) c ≡ later a (later b c)
later_assoc none b c = refl
later_assoc (some a) none c = refl
later_assoc (some a) (some b) none = refl
later_assoc (some a) (some b) (some c) = ap some (omega arith)

pub later-none : (a : Option ℕ) → later a none ≡ a
later-none none = refl
later-none (some a) = refl

lookup-mark_one :
    (c : ℕ) (hb : HeartbeatSignal) (s : TenantAccountingState)
    → lookup c (mark_one hb s).processed_seqs ≡ (
        if nat_beq hb.cluster_id c
        then later (lookup c s.processed_seqs) (some hb.sequence_number)
        else lookup c s.processed_seqs)
lookup-mark_one c hb s = elim (Option-cases (lookup hb.cluster_id s.processed_seqs)) [
  | inl e ↦ ground (arith, e, lookup-insert hb.cluster_id c hb.sequence_number s.processed_seqs)
  | inr (p, e) ↦
      ground (arith, e, lookup-insert hb.cluster_id c hb.sequence_number s.processed_seqs)
]

-- After the loop `ProcessedSeqs[c]` is the highest sequence number of `c` that was there or is in
-- the batch, whatever the order of the batch.
pub lookup-mark_processed :
    (c : ℕ) (hbs : List HeartbeatSignal) (s : TenantAccountingState)
    → lookup c (mark_processed hbs s).processed_seqs
      ≡ later (lookup c s.processed_seqs) (highest c hbs)
unfolding mark_processed
lookup-mark_processed c [] s = sym (later-none (lookup c s.processed_seqs))
lookup-mark_processed c (hb ∷ hbs) s =
    rw (lookup-mark_processed c hbs (mark_one hb s), lookup-mark_one c hb s)
      (elim (Bool-cases (nat_beq hb.cluster_id c)) [
        | inl e ↦ rw e (later_assoc (lookup c s.processed_seqs) _ _)
        | inr e ↦ rw e
      ])

-- After the loop `LastAck` is the highest sequence number that was acknowledged or is in the batch,
-- of any cluster.
pub last_ack-mark_processed :
    (hbs : List HeartbeatSignal) (s : TenantAccountingState)
    → (mark_processed hbs s).last_ack ≡ max s.last_ack (highest_of_all hbs)
unfolding mark_processed
last_ack-mark_processed [] s = omega arith
last_ack-mark_processed (hb ∷ hbs) s = ground (arith, last_ack-mark_processed hbs (mark_one hb s))
