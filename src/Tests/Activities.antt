-- ===== src/Tests/Activities.antt =====
-- The activities and the provisioning workflow.
use cloud_credit_system.Common.{
  ℕ, ◌+◌, ◌≡◌, ◌↔◌, ◌⊎◌, refl, Bool, true, false, none, some, [], ◌∷◌, All, nat_key,
}
use cloud_credit_system.Common.Int.{ℤ, pos, ◌+ℤ◌, ◌≤ℤ◌, wrap_i64}
use cloud_credit_system.Common.Maps.{lookup}
use cloud_credit_system.Domain.Resource.{resource_key, cpu_hours, active_nodes}
use cloud_credit_system.Accounting.Signals.{QuotaSnapshotData}
use cloud_credit_system.Accounting.Activities.{Balances}
use cloud_credit_system.Accounting.TbActivities.Build.{latest_by_cluster, usage_transfers}
use cloud_credit_system.Accounting.TbActivities.Built.{
  ChargesOne, usage_transfers-ChargesOne, number_of, latest_is_highest,
}
use cloud_credit_system.Accounting.Provisioning.{ProvisioningActivities, started}
use cloud_credit_system.Accounting.Pg.{Configs, check_soft_limits}
use cloud_credit_system.Accounting.Pg.SoftLimits.{check_soft_limits_flags}
use cloud_credit_system.Tests.Inputs.{plain, accounts, three}

usage_transfers-ChargesOne_example :
    All (ChargesOne plain three three.heartbeats) (usage_transfers plain three three.heartbeats)
usage_transfers-ChargesOne_example = usage_transfers-ChargesOne plain three three.heartbeats

latest_is_highest_example : number_of (lookup 5 (latest_by_cluster three.heartbeats)) ≡ some 5
latest_is_highest_example = latest_is_highest 5 three.heartbeats

-- Every call succeeds; the world counts them.
abbrev pub smooth : ProvisioningActivities ℕ
smooth = record {
  insert_tenant = λ t n b w. (true, w + 1);
  create_tenant_tb_accounts = λ u w. (some accounts, w + 1);
  insert_tb_account_mapping = λ t m w. (true, w + 1);
  submit_allocation_transfers = λ i w. (true, w + 1);
  start_accounting = λ i w. (started, w + 1);
  insert_cluster = λ i w. (true, w + 1);
  signal_register_cluster = λ t s w. (true, w + 1);
}

abbrev limits : Configs
limits =
    (cpu_hours, record { soft_limit = some (pos 50); soft_limit_alert_sent = false })
    ∷ (active_nodes, record { soft_limit = none; soft_limit_alert_sent = false })
    ∷ []

abbrev balances : Balances
balances =
    (cpu_hours, record { credits_total = pos 100; debits_posted = pos 40; debits_pending = pos 20 })
    ∷ []

abbrev always : ℕ → Bool
always i = true

check_soft_limits_flags_example :
    let c = check_soft_limits always true true balances limits in
    (c.success ≡ true)
    × (sent : Bool) × (lookup cpu_hours c.configs
        ≡ some (record { soft_limit = some (pos 50); soft_limit_alert_sent = sent }))
    × ((sent ≡ true) ↔ (
        (false ≡ true)
        ⊎ ((limit : ℤ) × (snap : QuotaSnapshotData) × (some (pos 50) ≡ some limit)
            × (lookup cpu_hours balances ≡ some snap)
            × (limit ≤ℤ wrap_i64 (snap.debits_posted +ℤ snap.debits_pending)))))
check_soft_limits_flags_example =
    check_soft_limits_flags always (λ i. refl) balances limits cpu_hours
      (record { soft_limit = some (pos 50); soft_limit_alert_sent = false }) (refl, (refl, tt)) refl
