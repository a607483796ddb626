-- ===== src/Gateway/Admin/Credit.antt =====
-- IssueTenantCredit on the workflows that it updates: AdminHandler composed with the update handler of
-- TenantAccountingWorkflow. Temporal may bring the update to the workflow of the tenant, and may bring
-- the answer back. The update runs from its start to its end while nothing else runs in its workflow;
-- Accounting/Workflow/Interleaved has the waits of an update, and what may run meanwhile.
use cloud_credit_system.Common.{
  ℕ, Bool, true, false, Option, none, some, List, nat_key, Result, ok, err,
}
use cloud_credit_system.Common.Maps.{Map, lookup, insert}
use cloud_credit_system.Domain.Resource.{ResourceType, resource_key}
use cloud_credit_system.Accounting.Signals.{QuotaAdjustmentSignal}
use cloud_credit_system.Accounting.Activities.{Activities, Balances}
use cloud_credit_system.Accounting.Workflow.State.{TenantAccountingState}
use cloud_credit_system.Accounting.Workflow.Flush.{WorkflowError}
use cloud_credit_system.Accounting.Workflow.Loop.{UpdateRejected, issue_credit}
use cloud_credit_system.Gateway.Admin.{AdminServices, AdminError}

-- What becomes of an update and its answer. An update whose answer is lost has been handled all the
-- same: UpdateWorkflow or `handle.Get` returns an error.
pub data Delivery : Type 0 where
  not_sent answer_lost delivered : Delivery

abbrev pub arrives : Delivery → Bool
arrives delivered = true
arrives _ = false

abbrev pub is_sent : Delivery → Bool
is_sent not_sent = false
is_sent _ = true

abbrev pub answer_of : {A : Type 0} → Delivery → Option A → Option A
answer_of delivered a = a
answer_of _ a = none

-- An update that is rejected or that fails is an error of UpdateWorkflow or of `handle.Get`.
abbrev pub answered : Option UpdateRejected × Result WorkflowError Balances → Option Balances
answered (some why, result) = none
answered (none, err e) = none
answered (none, ok balances) = some balances

-- Whether the workflow has flagged a resource; nothing where there is no workflow.
abbrev pub flag_in : ResourceType → Option TenantAccountingState → Option Bool
flag_in r none = none
flag_in r (some s) = lookup r s.exceeded_resources

abbrev pub is_some {ℓ} : {A : Type ℓ} → Option A → Bool
is_some none = false
is_some (some a) = true

abbrev pub is_ok : {A : Type 0} → Result AdminError A → Bool
is_ok (ok a) = true
is_ok (err e) = false

module _ (blake3 : List ℕ → List ℕ) {W : Type 0} (act : Activities W) where
  -- An update that reaches the workflows by tenant.
  unfoldable pub run_update :
      ℕ
      → QuotaAdjustmentSignal
      → Map ℕ TenantAccountingState × W
      → Option Balances × (Map ℕ TenantAccountingState × W)
  run_update t sig (tenants, w) = elim (lookup t tenants) [
    | none ↦ (none, (tenants, w))
    | some s ↦
        let (result, s', w') = issue_credit blake3 act sig s w in
        (answered result, (insert t s' tenants, w'))
  ]

  -- UpdateWorkflow and `handle.Get`.
  unfoldable pub update_tenant :
      Delivery
      → ℕ
      → QuotaAdjustmentSignal
      → Map ℕ TenantAccountingState × W
      → Option Balances × (Map ℕ TenantAccountingState × W)
  update_tenant not_sent t sig world = (none, world)
  update_tenant answer_lost t sig world = (none, (run_update t sig world).1)
  update_tenant delivered t sig world = run_update t sig world

  -- Whether an update has taken effect.
  abbrev took_effect : Delivery → ℕ → QuotaAdjustmentSignal → Map ℕ TenantAccountingState × W → Bool
  took_effect not_sent u sig world = false
  took_effect _ u sig world = is_some (run_update u sig world).0

  -- The handlers with Temporal connected to the workflows.
  abbrev pub connected :
      Delivery
      → AdminServices (Map ℕ TenantAccountingState × W)
      → AdminServices (Map ℕ TenantAccountingState × W)
  connected d sv = record sv { update_workflow = update_tenant d }
