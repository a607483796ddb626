-- ===== src/Accounting/Workflow/Interleaved.antt =====
-- TenantAccountingWorkflow with its waits: while a flush waits for an activity, the update handler can
-- run, and while an update waits, the main loop can. A transition is what runs between two waits.
pub mod Invariant
pub mod Counted
pub mod Numbers
use cloud_credit_system.Common.{
  ℕ, Bool, true, false, Option, none, some, List, [], ◌∷◌, ◌++◌, ◌≡◌, nat_key, leb, ltb, length,
  if◌then◌else◌,
}
use cloud_credit_system.Common.Maps.{lookup, erase}
use cloud_credit_system.Domain.Resource.{ResourceType, resource_key}
use cloud_credit_system.Accounting.Signals.{
  HeartbeatSignal, QuotaAdjustmentSignal, RegisterClusterSignal, TbBatchResult,
}
use cloud_credit_system.Accounting.Workflow.State.{
  TenantAccountingState, TenantAccountingInput, base_flush_interval, batch_size_threshold, start,
  carry, advances, absorb,
}
use cloud_credit_system.Accounting.Workflow.Flush.{next_flush}
use cloud_credit_system.Accounting.Workflow.Loop.{receive_register, doubled, validate}

-- Who called flushBatch: the threshold, the timer, or the end of the run.
pub data Caller : Type 0 where
  threshold timer_callback last_flush : Caller

-- Where the main loop is: at its selector, in flushBatch waiting for SubmitTBBatch of some heartbeats
-- under a sequence number, or in flushBatch waiting for the activities that follow it.
pub data MainLoop : Type 0 where
  selecting : MainLoop
  submitting : ℕ → List HeartbeatSignal → Caller → MainLoop
  projecting : Caller → MainLoop

-- An update that waits for SubmitTransfers of its allocation, under a sequence number.
pub record PendingUpdate : Type 0 where
  pub seq_no : ℕ
  pub sig : QuotaAdjustmentSignal

-- What became of a batch that has left CurBatch: its submission succeeded, or a continuation as new
-- started without it.
pub data Settled : Type 0 where
  counted dropped : List HeartbeatSignal → Settled

-- The workflow. The last three fields are history, which no transition reads: the heartbeats taken into
-- a batch, the batches that have left it, and the sequence numbers used, the latest first.
pub record Machine : Type 0 where
  pub state : TenantAccountingState
  pub main : MainLoop
  pub updates : List PendingUpdate
  pub accepted : List HeartbeatSignal
  pub settled : List Settled
  pub numbers : List ℕ

unfoldable pub first_machine : TenantAccountingInput → Machine
first_machine i = record {
  state = start i;
  main = selecting;
  updates = [];
  accepted = [];
  settled = [];
  numbers = [];
}

-- What a continuation leaves behind.
abbrev pub drop_batch : List HeartbeatSignal → List Settled → List Settled
drop_batch [] settled = settled
drop_batch (hb ∷ hbs) settled = settled ++ (dropped (hb ∷ hbs) ∷ [])

-- The continuation: the next run starts from what is carried, which the batch is not, and the update
-- handlers that still wait end with the run.
unfoldable pub on_continue : Machine → Machine
on_continue m = record m {
  state = start (carry m.state);
  main = selecting;
  updates = [];
  settled = drop_batch m.state.cur_batch m.settled;
}

-- What follows flushBatch, whether it returned an error or not: the callbacks set the interval and the
-- main loop selects again; after the last flush the run continues as new.
unfoldable pub end_flush : Caller → Machine → Machine
end_flush threshold m = record m {
  state = record m.state { current_flush_interval = base_flush_interval };
  main = selecting;
}
end_flush timer_callback m = record m {
  state = record m.state { current_flush_interval = base_flush_interval };
  main = selecting;
}
end_flush last_flush m = on_continue m

-- flushBatch up to SubmitTBBatch, of a batch that is not empty.
unfoldable pub begin_flush : Caller → Machine → Machine
begin_flush who m =
    let s = next_flush m.state in
    record m {
      state = s;
      main = submitting s.flush_seq_no s.cur_batch who;
      numbers = s.flush_seq_no ∷ m.numbers;
    }

-- The heartbeat callback, after the check against ProcessedSeqs.
unfoldable pub append_heartbeat : HeartbeatSignal → Machine → Machine
append_heartbeat hb m = record m {
  state = record m.state { cur_batch = m.state.cur_batch ++ (hb ∷ []) };
  accepted = m.accepted ++ (hb ∷ []);
}

unfoldable pub flush_if_full : Machine → Machine
flush_if_full m =
    if leb batch_size_threshold (length m.state.cur_batch) then begin_flush threshold m else m

unfoldable pub on_heartbeat : HeartbeatSignal → Machine → Machine
on_heartbeat hb m =
    if advances (lookup hb.cluster_id m.state.processed_seqs) hb.sequence_number
    then flush_if_full (append_heartbeat hb m)
    else m

unfoldable pub on_register : RegisterClusterSignal → Machine → Machine
on_register sig m = record m { state = receive_register sig m.state }

-- The timer callback: an empty batch only doubles the interval.
unfoldable pub on_timer : Machine → Machine
on_timer m = if ltb 0 (length m.state.cur_batch) then begin_flush timer_callback m else record m {
  state = record m.state { current_flush_interval = doubled m.state.current_flush_interval };
}

-- SubmitTBBatch of `hbs` comes back: an error ends flushBatch, a result is counted.
unfoldable pub on_submitted :
    List HeartbeatSignal → Caller → Option TbBatchResult → Machine → Machine
on_submitted hbs who none m = end_flush who m
on_submitted hbs who (some result) m = record m {
  state = absorb result m.state;
  main = projecting who;
  settled = m.settled ++ (counted hbs ∷ []);
}

-- The activities that follow have ended, in whatever way.
unfoldable pub on_projected : Caller → Machine → Machine
on_projected who m = end_flush who m

-- The update handler up to SubmitAllocationTransfers.
unfoldable pub on_update : QuotaAdjustmentSignal → Machine → Machine
on_update sig m =
    let s = next_flush m.state in
    record m {
      state = s;
      updates = m.updates ++ (record { seq_no = s.flush_seq_no; sig = sig } ∷ []);
      numbers = s.flush_seq_no ∷ m.numbers;
    }

-- The allocation comes back: if it is committed the exceeded flag is cleared; the rest of the handler
-- refreshes the projection.
unfoldable pub on_allocated : QuotaAdjustmentSignal → Bool → Machine → Machine
on_allocated sig committed m = record m {
  state =
      if committed
      then record m.state {
        exceeded_resources = erase sig.resource_type m.state.exceeded_resources;
      }
      else m.state;
}

-- The handler ends: the interval is the base again.
unfoldable pub on_update_end : List PendingUpdate → Machine → Machine
on_update_end rest m = record m {
  state = record m.state { current_flush_interval = base_flush_interval };
  updates = rest;
}

-- Continue-As-New is suggested: the last flush, which an empty batch skips.
unfoldable pub on_history_limit : Machine → Machine
on_history_limit m =
    if ltb 0 (length m.state.cur_batch) then begin_flush last_flush m else on_continue m

-- The transitions, in any order that the guards allow. A callback of the selector needs the main loop
-- at its selector; an update needs nothing but its validator.
pub data Step : Machine → Machine → Type 0 where
  heartbeat_step :
      (hb : HeartbeatSignal) (m : Machine) → m.main ≡ selecting → Step m (on_heartbeat hb m)
  register_step :
      (sig : RegisterClusterSignal) (m : Machine) → m.main ≡ selecting → Step m (on_register sig m)
  timer_step : (m : Machine) → m.main ≡ selecting → Step m (on_timer m)
  submitted_step :
      (n : ℕ) (hbs : List HeartbeatSignal) (who : Caller) (result : Option TbBatchResult)
      (m : Machine)
      → m.main ≡ submitting n hbs who
      → Step m (on_submitted hbs who result m)
  projected_step :
      (who : Caller) (m : Machine) → m.main ≡ projecting who → Step m (on_projected who m)
  update_step :
      (sig : QuotaAdjustmentSignal) (m : Machine)
      → validate sig m.state ≡ none
      → Step m (on_update sig m)
  allocated_step :
      (before after : List PendingUpdate) (u : PendingUpdate) (committed : Bool) (m : Machine)
      → m.updates ≡ before ++ (u ∷ after)
      → Step m (on_allocated u.sig committed m)
  update_end_step :
      (before after : List PendingUpdate) (u : PendingUpdate) (m : Machine)
      → m.updates ≡ before ++ (u ∷ after)
      → Step m (on_update_end (before ++ after) m)
  history_step : (m : Machine) → m.main ≡ selecting → Step m (on_history_limit m)

pub data Reach (i : TenantAccountingInput) : Machine → Type 0 where
  here : Reach i (first_machine i)
  next : {m m' : Machine} → Reach i m → Step m m' → Reach i m'

-- Any number of transitions.
pub data Steps (m : Machine) : Machine → Type 0 where
  stay : Steps m m
  step : {m' m'' : Machine} → Steps m m' → Step m' m'' → Steps m m''
