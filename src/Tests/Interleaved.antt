-- ===== src/Tests/Interleaved.antt =====
-- The accounting workflow with its waits.
use cloud_credit_system.Common.{◌≡◌, refl, none, [], ◌∷◌, ◌++◌, length, nat_key}
use cloud_credit_system.Domain.Resource.{resource_key}
use cloud_credit_system.Accounting.Workflow.State.{start, carry}
use cloud_credit_system.Accounting.Workflow.Loop.{validate}
use cloud_credit_system.Accounting.Workflow.Interleaved.{
  Machine, first_machine, begin_flush, last_flush, dropped, on_submitted, on_history_limit,
  end_flush, on_continue, append_heartbeat, flush_if_full, on_heartbeat, on_timer, on_update, Reach,
  here, next, heartbeat_step, timer_step, update_step,
}
use cloud_credit_system.Accounting.Workflow.Interleaved.Invariant.{settled_in, in_flight}
use cloud_credit_system.Accounting.Workflow.Interleaved.Counted.{
  accepted-eq-settled-append, IsDrained, drains,
}
use cloud_credit_system.Tests.Inputs.{heartbeat_of, first_run, surge_pack}

-- A heartbeat waits.
abbrev one_waits : Machine
one_waits = on_heartbeat (heartbeat_of 5 6) (first_machine first_run)

-- A credit update starts while the flush of the heartbeat waits for TigerBeetle.
abbrev busy : Machine
busy = on_update surge_pack (on_timer one_waits)

transitions : Unit {0}
unfolding on_heartbeat on_timer on_update first_machine start flush_if_full append_heartbeat
    begin_flush validate
transitions = tt

reached : Reach first_run busy
unfolding transitions
reached =
    next (next (next here (heartbeat_step (heartbeat_of 5 6) _ refl)) (timer_step _ refl))
      (update_step surge_pack _ refl)

accepted-eq-settled-append_example :
    (busy.accepted ≡ settled_in busy.settled ++ busy.state.cur_batch)
    × (in_flight busy.main busy.state.cur_batch ≡ busy.state.cur_batch)
accepted-eq-settled-append_example = accepted-eq-settled-append reached

drains_example : (m' : Machine) × IsDrained busy m'
drains_example = drains (record { per_resource = []; gauge_updates = [] }) reached

-- Both submissions are under way.
both_numbers : (busy.numbers ≡ 2 ∷ 1 ∷ []) × (length busy.updates ≡ 1)
unfolding transitions
both_numbers = (refl, refl)

-- The last flush fails, and the run continues as new without the heartbeat.
last_flush_fails :
    let m = on_submitted one_waits.state.cur_batch last_flush none (on_history_limit one_waits) in
    (m.settled ≡ dropped (heartbeat_of 5 6 ∷ []) ∷ []) × (m.state.cur_batch ≡ [])
unfolding transitions on_submitted on_history_limit end_flush on_continue carry
last_flush_fails = (refl, refl)
