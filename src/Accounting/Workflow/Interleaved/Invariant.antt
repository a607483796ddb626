-- ===== src/Accounting/Workflow/Interleaved/Invariant.antt =====
-- The transitions of the interleaved workflow and its batch: which transition changes CurBatch, and what
-- stays true of it.
use cloud_credit_system.Common.{
  ℕ, ◌≡◌, refl, sym, ap, ◌∙◌, ◌⊎◌, inl, inr, Option, none, some, List, [], ◌∷◌, ◌++◌, arith,
  Option-cases, nat_key,
}
use mathlib.Core.List.{append_assoc, append-nil}
use cloud_credit_system.Common.Maps.{lookup}
use cloud_credit_system.Accounting.Signals.{HeartbeatSignal, RegisterClusterSignal, TbBatchResult}
use cloud_credit_system.Accounting.Workflow.State.{
  TenantAccountingState, TenantAccountingInput, absorb, start, carry,
}
use cloud_credit_system.Accounting.Workflow.Loop.{receive_register}
use cloud_credit_system.Accounting.Workflow.Interleaved.{
  Caller, threshold, timer_callback, last_flush, MainLoop, selecting, submitting, projecting,
  Machine, first_machine, Settled, counted, dropped, drop_batch, end_flush, begin_flush,
  append_heartbeat, flush_if_full, on_heartbeat, on_register, on_timer, on_submitted, on_projected,
  on_update, on_allocated, on_update_end, on_history_limit, on_continue, Step, heartbeat_step,
  register_step, timer_step, submitted_step, projected_step, update_step, allocated_step,
  update_end_step, history_step, Reach, here, next,
}

-- The heartbeats of all batches that have left CurBatch, in order, and those of the counted ones.
unfoldable pub settled_in : List Settled → List HeartbeatSignal
settled_in [] = []
settled_in (counted hbs ∷ rest) = hbs ++ settled_in rest
settled_in (dropped hbs ∷ rest) = hbs ++ settled_in rest

unfoldable pub counted_in : List Settled → List HeartbeatSignal
counted_in [] = []
counted_in (counted hbs ∷ rest) = hbs ++ counted_in rest
counted_in (dropped hbs ∷ rest) = counted_in rest

pub settled_in-append :
    (st : List Settled) (b : Settled)
    → settled_in (st ++ (b ∷ [])) ≡ settled_in st ++ settled_in (b ∷ [])
unfolding settled_in
settled_in-append [] b = refl
settled_in-append (counted hbs ∷ rest) b =
    ap (λ (l : List HeartbeatSignal). hbs ++ l) (settled_in-append rest b)
    ∙ sym (append_assoc hbs (settled_in rest) (settled_in (b ∷ [])))
settled_in-append (dropped hbs ∷ rest) b =
    ap (λ (l : List HeartbeatSignal). hbs ++ l) (settled_in-append rest b)
    ∙ sym (append_assoc hbs (settled_in rest) (settled_in (b ∷ [])))

pub counted_in-append :
    (st : List Settled) (hbs : List HeartbeatSignal)
    → counted_in (st ++ (counted hbs ∷ [])) ≡ counted_in st ++ hbs
unfolding counted_in
counted_in-append [] hbs = append-nil hbs
counted_in-append (counted first ∷ rest) hbs =
    ap (λ (l : List HeartbeatSignal). first ++ l) (counted_in-append rest hbs)
    ∙ sym (append_assoc first (counted_in rest) hbs)
counted_in-append (dropped first ∷ rest) hbs = counted_in-append rest hbs

settled_in-drop_batch :
    (hbs : List HeartbeatSignal) (st : List Settled)
    → settled_in (drop_batch hbs st) ≡ settled_in st ++ hbs
unfolding settled_in
settled_in-drop_batch [] st = sym (append-nil (settled_in st))
settled_in-drop_batch (hb ∷ hbs) st =
    settled_in-append st (dropped (hb ∷ hbs))
    ∙ ap (λ (l : List HeartbeatSignal). settled_in st ++ l) (append-nil (hb ∷ hbs))

-- The heartbeats that are being submitted, if any are, and else those that wait; none may wait while
-- the activities after a submission run.
abbrev pub in_flight : MainLoop → List HeartbeatSignal → List HeartbeatSignal
in_flight selecting waiting = waiting
in_flight (submitting n hbs who) waiting = hbs
in_flight (projecting who) waiting = []

-- Every heartbeat taken in has left the batch or waits in it, and what is being submitted is the batch.
pub record IsKept (m : Machine) : Type 0 where
  pub kept : m.accepted ≡ settled_in m.settled ++ m.state.cur_batch
  pub same : in_flight m.main m.state.cur_batch ≡ m.state.cur_batch

on_continue-IsKept : (m : Machine) → IsKept m → IsKept (on_continue m)
unfolding on_continue start carry
on_continue-IsKept m h = record {
  kept =
      h.kept
      ∙ sym (settled_in-drop_batch m.state.cur_batch m.settled)
      ∙ sym (append-nil (settled_in (drop_batch m.state.cur_batch m.settled)));
  same = refl;
}

end_flush-IsKept : (who : Caller) (m : Machine) → IsKept m → IsKept (end_flush who m)
unfolding end_flush
end_flush-IsKept threshold m h = record { kept = h.kept; same = refl }
end_flush-IsKept timer_callback m h = record { kept = h.kept; same = refl }
end_flush-IsKept last_flush m h = on_continue-IsKept m h

cur_batch-receive_register :
    (sig : RegisterClusterSignal) (s : TenantAccountingState)
    → (receive_register sig s).cur_batch ≡ s.cur_batch
unfolding receive_register
cur_batch-receive_register sig s = elim (Option-cases (lookup sig.cluster_id s.processed_seqs)) [
  | inl e ↦ ground arith
  | inr (p, e) ↦ ground arith
]

begin_flush-IsKept : (who : Caller) (m : Machine) → IsKept m → IsKept (begin_flush who m)
unfolding begin_flush
begin_flush-IsKept who m h = record { kept = h.kept; same = refl }

append_heartbeat-IsKept :
    (hb : HeartbeatSignal) (m : Machine)
    → m.main ≡ selecting
    → IsKept m
    → IsKept (append_heartbeat hb m)
unfolding append_heartbeat
append_heartbeat-IsKept hb m e h = record {
  kept =
      ap (λ (l : List HeartbeatSignal). l ++ (hb ∷ [])) h.kept
      ∙ append_assoc (settled_in m.settled) m.state.cur_batch (hb ∷ []);
  same = rw e;
}

on_heartbeat-IsKept :
    (hb : HeartbeatSignal) (m : Machine)
    → m.main ≡ selecting
    → IsKept m
    → IsKept (on_heartbeat hb m)
unfolding on_heartbeat flush_if_full
on_heartbeat-IsKept hb m e h =
    ground (
      arith,
      append_heartbeat-IsKept hb m e h,
      begin_flush-IsKept threshold (append_heartbeat hb m),
    )

on_timer-IsKept : (m : Machine) → m.main ≡ selecting → IsKept m → IsKept (on_timer m)
unfolding on_timer
on_timer-IsKept m e h = ground (arith, begin_flush-IsKept timer_callback m h)

on_history_limit-IsKept : (m : Machine) → IsKept m → IsKept (on_history_limit m)
unfolding on_history_limit
on_history_limit-IsKept m h =
    ground (arith, begin_flush-IsKept last_flush m h, on_continue-IsKept m h)

on_submitted-IsKept :
    (n : ℕ) (hbs : List HeartbeatSignal) (who : Caller) (result : Option TbBatchResult)
    (m : Machine)
    → m.main ≡ submitting n hbs who
    → IsKept m
    → IsKept (on_submitted hbs who result m)
unfolding on_submitted absorb settled_in
on_submitted-IsKept n hbs who none m e h = end_flush-IsKept who m h
on_submitted-IsKept n hbs who (some result) m e h =
    let all_of_it : hbs ≡ m.state.cur_batch = ground arith in
    record {
      kept =
          h.kept
          ∙ ap (λ (l : List HeartbeatSignal). settled_in m.settled ++ l)
              (sym all_of_it ∙ sym (append-nil hbs))
          ∙ sym (settled_in-append m.settled (counted hbs))
          ∙ sym (append-nil (settled_in (m.settled ++ (counted hbs ∷ []))));
      same = refl;
    }

Step-IsKept : {m m' : Machine} → Step m m' → IsKept m → IsKept m'
unfolding on_register on_projected on_update on_allocated on_update_end
Step-IsKept (heartbeat_step hb m e) h = on_heartbeat-IsKept hb m e h
Step-IsKept (register_step sig m e) h = ground (arith, cur_batch-receive_register sig m.state)
Step-IsKept (timer_step m e) h = on_timer-IsKept m e h
Step-IsKept (submitted_step n hbs who result m e) h = on_submitted-IsKept n hbs who result m e h
Step-IsKept (projected_step who m e) h = end_flush-IsKept who m h
Step-IsKept (update_step sig m e) h = record { kept = h.kept; same = h.same }
Step-IsKept (allocated_step before after u committed m e) h = ground arith
Step-IsKept (update_end_step before after u m e) h = record { kept = h.kept; same = h.same }
Step-IsKept (history_step m e) h = on_history_limit-IsKept m h

pub Reach-IsKept : {i : TenantAccountingInput} {m : Machine} → Reach i m → IsKept m
unfolding first_machine start settled_in
Reach-IsKept here = record { kept = refl; same = refl }
Reach-IsKept (next before step) = Step-IsKept step (Reach-IsKept before)

pub MainLoop-cases :
    (l : MainLoop)
    → (l ≡ selecting)
      ⊎ (((n : ℕ) × (hbs : List HeartbeatSignal) × (who : Caller) × (l ≡ submitting n hbs who))
          ⊎ ((who : Caller) × (l ≡ projecting who)))
MainLoop-cases selecting = inl refl
MainLoop-cases (submitting n hbs who) = inr (inl (n, hbs, who, refl))
MainLoop-cases (projecting who) = inr (inr (who, refl))
