-- ===== src/Accounting/Workflow/Loop.antt =====
-- The handlers and the main loop of TenantAccountingWorkflow. The timer is its next duration.
use cloud_credit_system.Common.{
  ℕ, ◌*◌, Option, none, some, List, [], ◌∷◌, ◌++◌, ltb, leb, nat_key, if◌then◌else◌, length, Result,
  ok,
}
use cloud_credit_system.Common.Int.{leb_ℤ, pos}
use cloud_credit_system.Common.Maps.{lookup, insert}
use cloud_credit_system.Domain.Resource.{resource_key}
use cloud_credit_system.Accounting.Signals.{
  HeartbeatSignal, QuotaAdjustmentSignal, RegisterClusterSignal,
}
use cloud_credit_system.Accounting.Activities.{Activities, Balances}
use cloud_credit_system.Accounting.Workflow.State.{
  TenantAccountingState, base_flush_interval, max_flush_interval, batch_size_threshold, start,
  carry, advances,
}
use cloud_credit_system.Accounting.Workflow.Flush.{WorkflowError, flush_batch, flush_adjustment}

-- The register-cluster signal.
unfoldable pub receive_register :
    RegisterClusterSignal → TenantAccountingState → TenantAccountingState
receive_register sig s = elim (lookup sig.cluster_id s.processed_seqs) [
  | none ↦ record s { processed_seqs = insert sig.cluster_id 0 s.processed_seqs }
  | some _ ↦ s
]

-- `next := CurrentFlushInterval * 2`, capped.
abbrev pub doubled : ℕ → ℕ
doubled d = if ltb max_flush_interval (d * 2) then max_flush_interval else d * 2

pub data UpdateRejected : Type 0 where
  amount_not_positive unknown_resource_type : UpdateRejected

-- The validator of the issue-credit update: `none` lets the update in.
unfoldable pub validate : QuotaAdjustmentSignal → TenantAccountingState → Option UpdateRejected
validate sig s =
    if leb_ℤ sig.amount (pos 0)
    then some amount_not_positive
    else elim (lookup sig.resource_type s.account_map) [
      | none ↦ some unknown_resource_type
      | some _ ↦ none
    ]

-- What wakes the main loop, and the check after each round.
pub data Event : Type 0 where
  heartbeat : HeartbeatSignal → Event
  register : RegisterClusterSignal → Event
  timer : Event
  credit : QuotaAdjustmentSignal → Event
  history_limit : Event

module _ (blake3 : List ℕ → List ℕ) {W : Type 0} (act : Activities W) where
  -- A flush by the threshold or a timer: its error is only logged.
  abbrev flush : TenantAccountingState → W → TenantAccountingState × W
  flush s w = let (_, s', w') = flush_batch blake3 act s w in (s', w')

  -- A heartbeat that is not skipped, appended to the batch.
  unfoldable pub accept_heartbeat : TenantAccountingState → W → TenantAccountingState × W
  accept_heartbeat s w =
      let (s', w') = flush s w in
      if leb batch_size_threshold (length s.cur_batch)
      then (record s' { current_flush_interval = base_flush_interval }, w')
      else (s, w)

  -- The heartbeat signal.
  unfoldable pub receive_heartbeat :
      HeartbeatSignal → TenantAccountingState → W → TenantAccountingState × W
  receive_heartbeat sig s w =
      if advances (lookup sig.cluster_id s.processed_seqs) sig.sequence_number
      then accept_heartbeat (record s { cur_batch = s.cur_batch ++ (sig ∷ []) }) w
      else (s, w)

  -- The flush timer.
  unfoldable pub timer_fired : TenantAccountingState → W → TenantAccountingState × W
  timer_fired s w =
      let had_activity = ltb 0 (length s.cur_batch) in
      let (s', w') = flush s w in
      (
        record s' {
          current_flush_interval =
              if had_activity then base_flush_interval else doubled s'.current_flush_interval;
        },
        w',
      )

  -- The issue-credit update, behind its validator.
  unfoldable pub issue_credit :
      QuotaAdjustmentSignal
      → TenantAccountingState
      → W
      → (Option UpdateRejected × Result WorkflowError Balances) × TenantAccountingState × W
  issue_credit sig s w = elim (validate sig s) [
    | some reason ↦ ((some reason, ok []), s, w)
    | none ↦
        let (result, s', w') = flush_adjustment blake3 act s sig w in
        ((none, result), record s' { current_flush_interval = base_flush_interval }, w')
  ]

  -- Continue-As-New: flush, carry, and start again.
  unfoldable pub continue_as_new : TenantAccountingState → W → TenantAccountingState × W
  continue_as_new s w = let (s', w') = flush s w in (start (carry s'), w')

  -- One round of the main loop, or one update.
  unfoldable pub step : Event → TenantAccountingState → W → TenantAccountingState × W
  step (heartbeat sig) s w = receive_heartbeat sig s w
  step (register sig) s w = (receive_register sig s, w)
  step timer s w = timer_fired s w
  step (credit sig) s w = let (_, s', w') = issue_credit sig s w in (s', w')
  step history_limit s w = continue_as_new s w

  unfoldable pub run_rounds : List Event → TenantAccountingState → W → TenantAccountingState × W
  run_rounds [] s w = (s, w)
  run_rounds (e ∷ es) s w = let (s', w') = step e s w in run_rounds es s' w'
