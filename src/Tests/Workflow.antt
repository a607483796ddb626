-- ===== src/Tests/Workflow.antt =====
-- The accounting workflow.
use cloud_credit_system.Common.{
  ℕ, ◌*◌, ◌<◌, ◌≡◌, ◌↔◌, refl, some, [], ◌∷◌, length, nat_key, ok, max,
}
use cloud_credit_system.Common.Maps.{lookup}
use cloud_credit_system.Domain.Resource.{
  memory_gb_hours, resource_key, resource_type_from_ledger, ledger_id,
  resource_type_from_ledger-ledger_id,
}
use cloud_credit_system.Accounting.Workflow.State.{
  absorb, mark_processed, update_exceeded, update_pending, batch_size_threshold, start,
  base_flush_interval,
}
use cloud_credit_system.Accounting.Workflow.Flush.{
  flush_unless_empty, submit_flush, finish_flush, project_balances, gauge_ids, gauge_ids_resources,
  batch_input, flush_batch,
}
use cloud_credit_system.Accounting.Workflow.Loop.{
  heartbeat, timer, history_limit, receive_heartbeat, continue_as_new, validate, run_rounds,
}
use cloud_credit_system.Accounting.Workflow.Seqs.{later, highest, highest_of_all}
use cloud_credit_system.Accounting.Workflow.FlushOutcome.{FlushOutcome, flush_batch-FlushOutcome}
use cloud_credit_system.Accounting.Workflow.Dedup.{flushed_once}
use cloud_credit_system.Accounting.Workflow.Timer.{HasInterval, backed_off, interval_in_bounds}
use cloud_credit_system.Accounting.Workflow.BatchSize.{batch_below_threshold}
use cloud_credit_system.Accounting.Workflow.Continue.{continue_as_new_keeps, continue_as_new_loses}
use cloud_credit_system.Tests.Inputs.{plain, working, failing, heartbeat_of, first_run, waiting}

-- The definitions that a run of the workflow computes with.
workflow : Unit {0}
unfolding flush_batch flush_unless_empty submit_flush finish_flush absorb mark_processed
    project_balances batch_input gauge_ids gauge_ids_resources update_exceeded update_pending
    validate
workflow = tt

-- A flush: three activities, and the batch is counted.
flush_runs :
    let (r, s', w') = flush_batch plain working waiting 0 in
    (r ≡ ok tt) × (s'.processed_seqs ≡ (5, 5) ∷ (6, 9) ∷ []) × (s'.last_ack ≡ 9) × (w' ≡ 4)
unfolding workflow
flush_runs = (refl, refl, refl, refl)

flushed_once_example :
    let (_, s1, w1) = flush_batch plain working waiting 0 in
    let (s2, w2) =
      run_rounds plain working (heartbeat (heartbeat_of 5 6) ∷ history_limit ∷ []) s1 w1 in
    receive_heartbeat plain working (heartbeat_of 5 4) s2 w2 ≡ (s2, w2)
unfolding workflow
flushed_once_example =
    flushed_once plain working waiting 0 0 (heartbeat_of 5 4)
      (heartbeat (heartbeat_of 5 6) ∷ history_limit ∷ []) refl refl

flush_batch-FlushOutcome_example :
    let (r, s', w') = flush_batch plain failing waiting 0 in FlushOutcome waiting r s'
flush_batch-FlushOutcome_example = flush_batch-FlushOutcome plain failing waiting 0

interval_in_bounds_example :
    HasInterval (run_rounds plain working (timer ∷ timer ∷ []) (start first_run) 0).0
interval_in_bounds_example = interval_in_bounds plain working first_run (timer ∷ timer ∷ []) 0

-- Six idle cycles reach the cap of a minute.
idle_minute : backed_off 5 base_flush_interval ≡ 60 * 1_000_000_000
idle_minute = refl

batch_below_threshold_example :
    length
      (run_rounds plain working (heartbeat (heartbeat_of 5 1) ∷ []) (start first_run) 0).0.cur_batch
    < batch_size_threshold
batch_below_threshold_example =
    batch_below_threshold plain working
      (λ i w. (record { per_resource = []; gauge_updates = [] }, refl)) first_run
      (heartbeat (heartbeat_of 5 1) ∷ []) 0

continue_as_new_keeps_example :
    let (s', w') = continue_as_new plain working waiting 0 in
    let (_, f, _) = flush_batch plain working waiting 0 in
    ((c : ℕ)
      → lookup c s'.processed_seqs
        ≡ later (lookup c waiting.processed_seqs) (highest c waiting.cur_batch))
    × (s'.last_ack ≡ max waiting.last_ack (highest_of_all waiting.cur_batch))
    × (s'.pending_gauge_ids ≡ f.pending_gauge_ids)
    × (s'.exceeded_resources ≡ f.exceeded_resources)
    × (s'.flush_seq_no ≡ f.flush_seq_no)
    × (s'.cur_batch ≡ [])
    × (s'.current_flush_interval ≡ base_flush_interval)
    × (s'.account_map ≡ waiting.account_map)
    × (s'.global_operator_ids ≡ waiting.global_operator_ids)
    × (s'.global_sink_ids ≡ waiting.global_sink_ids)
    × (s'.tenant_id ≡ waiting.tenant_id)
    × (s'.tenant_uuid ≡ waiting.tenant_uuid)
unfolding workflow
continue_as_new_keeps_example = continue_as_new_keeps plain working waiting 0 refl

continue_as_new_loses_example :
    let (s', w') = continue_as_new plain failing waiting 0 in
    (s'.cur_batch ≡ [])
    × (s'.processed_seqs ≡ waiting.processed_seqs)
    × (s'.last_ack ≡ waiting.last_ack)
    × (w' ≡ 1)
continue_as_new_loses_example = continue_as_new_loses plain failing waiting 0 refl refl

resource_type_from_ledger-ledger_id_example :
    (resource_type_from_ledger 2 ≡ some memory_gb_hours) ↔ (ledger_id memory_gb_hours ≡ some 2)
resource_type_from_ledger-ledger_id_example = resource_type_from_ledger-ledger_id 2 memory_gb_hours
