-- ===== src/System/Provisioned.antt =====
-- What a provisioning that succeeds has stored in PostgreSQL, whatever attempts its activities took.
use cloud_credit_system.Common.{
  ℕ, ◌≡◌, refl, sym, ap, ◌∙◌, subst, inl, Bool, true, Option, none, some, List, arith, ok,
}
use mathlib.Core.Option
use cloud_credit_system.Common.Maps.{Map, lookup, IsUnique}
use cloud_credit_system.Domain.Resource.{ResourceType, resource_key}
use cloud_credit_system.Ledger.TigerBeetle.{TigerBeetle}
use cloud_credit_system.Accounting.Signals.{RegisterClusterSignal, SubmitAllocationInput}
use cloud_credit_system.Accounting.Workflow.State.{TenantAccountingInput}
use cloud_credit_system.Accounting.Provisioning.{
  TenantProvisioningInput, ChildStart, ProvisioningActivities, tenant_provisioning,
}
use cloud_credit_system.Accounting.Provisioning.Steps.{tenant_provisioning-Provisioned}
use cloud_credit_system.Db.Table.{select_one}
use cloud_credit_system.Db.Table.Laws.{select_one_appended}
use cloud_credit_system.Db.Schema.{Database}
use cloud_credit_system.Db.Tenants.{is_tenant, get_tenant}
use cloud_credit_system.Db.Integrity.{IsIntact}
use cloud_credit_system.System.Postgres.{for_tenant}
use cloud_credit_system.System.World.{Occasion, World, maximum_attempts, retry, succeeded, on_db}
use cloud_credit_system.System.Runs.{retry_keeps}
use cloud_credit_system.System.Attempts.{retry_leads, value_ok, done-true, succeeded-some}
use cloud_credit_system.System.Provisioning.{
  add_tenant, insert_tenant_activity, insert_tb_account_mapping_activity, map_all,
  system_provisioning,
}
use cloud_credit_system.System.Mapping.{select_one_absent, mapped, unknown_unmapped}
use cloud_credit_system.System.Inserted.{
  tenant_row, add_tenant-cases, Trying, Added, attempt-Trying,
}
use cloud_credit_system.System.Wallets.{
  Mapping, Mapped, attempt-Mapping, created-IsUnique, IsAccountRange,
}

module _ (tb : TigerBeetle) (parse : ℕ → Option ℕ) (occasion : ℕ → Occasion)
    (start : TenantAccountingInput → World tb.Store → ChildStart)
    (signal : ℕ → RegisterClusterSignal → World tb.Store → Bool) where
  abbrev provisioning : ProvisioningActivities (World tb.Store)
  provisioning = system_provisioning tb parse occasion start signal

  -- A call on PostgreSQL for a tenant, from what one attempt does.
  on_tenant_leads :
      {text t : ℕ} (parsed : parse text ≡ some t) (work : Occasion → ℕ → Database → Bool × Database)
      (I J : Database → Type 0)
      → ((n : ℕ) (db : Database)
          → I db
          → let (success, db') = work (occasion n) t db in I db' × (success ≡ true → J db'))
      → (w : World tb.Store) → I w.db
      → let (r, w') =
          retry occasion maximum_attempts (λ o. on_db (for_tenant (parse text) (work o))) w in
        succeeded r ≡ true → J w'.db
  on_tenant_leads parsed work I J attempt w i success =
      retry_leads occasion _ (λ store db. I db) (λ store db. J db) tt
        (λ n w1 i1.
          subst (λ o. I (for_tenant o (work (occasion n)) w1.db).1) (sym parsed)
            (attempt n w1.db i1).0)
        (λ n w1 i1 e.
          subst
            (λ o.
              (for_tenant o (work (occasion n)) w1.db).0 ≡ true
              → J (for_tenant o (work (occasion n)) w1.db).1)
            (sym parsed) (attempt n w1.db i1).1 (done-true _ tt e))
        maximum_attempts w i (succeeded-some _ success)

  module _ (input : TenantProvisioningInput) (t : ℕ) (parsed : parse input.tenant_id ≡ some t) where
    inserted :
        (w w1 : World tb.Store)
        → provisioning.insert_tenant input.tenant_id input.name input.billing_tier w ≡ (true, w1)
        → Added t input.name input.billing_tier w.db w1.db
    unfolding system_provisioning insert_tenant_activity
    inserted w w1 e =
        subst (λ (v : World tb.Store). Added t input.name input.billing_tier w.db v.db)
          (ap (λ p. p.1) e)
          (on_tenant_leads parsed
            (λ o tenant. add_tenant o.reaches tenant o.now input.name input.billing_tier)
            (Trying t input.name input.billing_tier w.db)
            (Added t input.name input.billing_tier w.db)
            (λ n db trying.
              let o = occasion n in
              attempt-Trying t input.name input.billing_tier w.db db _ _ trying
                (add_tenant-cases t input.name input.billing_tier o.reaches o.now db))
            w (inl refl) (ap (λ p. p.0) e))

    created :
        (w w' : World tb.Store) (accounts : Map ResourceType ℕ)
        → provisioning.create_tenant_tb_accounts input.tenant_uuid w ≡ (some accounts, w')
        → (w'.db ≡ w.db) × IsUnique accounts
    unfolding system_provisioning
    created w w' accounts e =
        subst (λ (v : World tb.Store). (v.db ≡ w.db) × IsUnique accounts) (ap (λ p. p.1) e)
          (
            retry_keeps (λ store db. db ≡ w.db) occasion _ (λ o w1 same. same) maximum_attempts w
                refl,
            retry_leads occasion _ (λ store db. Unit) (λ store db. IsUnique accounts) accounts
                (λ n w1 u. tt)
                (λ n w1 u e1.
                  created-IsUnique tb (occasion n).random input.tenant_uuid w1.store accounts
                    (value_ok _ accounts e1))
                maximum_attempts w tt (ap (λ p. p.0) e),
          )

    stored_mapping :
        (ranges : (n : ℕ) → IsAccountRange (occasion n).account_order) (q : ResourceType)
        (accounts : Map ResourceType ℕ) (w w' : World tb.Store)
        → IsUnique accounts
        → mapped t q w.db ≡ none
        → provisioning.insert_tb_account_mapping input.tenant_id accounts w ≡ (true, w')
        → Mapped t q accounts w.db w'.db
    unfolding system_provisioning insert_tb_account_mapping_activity
    stored_mapping ranges q accounts w w' unique none_yet e =
        subst (λ (v : World tb.Store). Mapped t q accounts w.db v.db) (ap (λ p. p.1) e)
          (on_tenant_leads parsed
            (λ o tenant. map_all o.reaches tenant o.now 0 (o.account_order accounts))
            (Mapping t q accounts w.db) (Mapped t q accounts w.db)
            (λ n db i.
              let o = occasion n in
              attempt-Mapping t q accounts w.db o.reaches o.now (o.account_order accounts) db
                (ranges n accounts unique q) i)
            w (refl, inl none_yet) (ap (λ p. p.0) e))

    allocated :
        (w w' : World tb.Store) (i : SubmitAllocationInput)
        → provisioning.submit_allocation_transfers i w ≡ (true, w')
        → w'.db ≡ w.db
    unfolding system_provisioning
    allocated w w' i e =
        subst (λ (v : World tb.Store). v.db ≡ w.db) (ap (λ p. p.1) e)
          (retry_keeps (λ store db. db ≡ w.db) occasion _ (λ o w1 same. same) maximum_attempts w
            refl)

    -- If TenantProvisioningWorkflow returns accounts, on a database that meets the constraints of the schema
    -- and where every attempt ranges over each key of a map once, then the row of the tenant is new and
    -- is stored as it was asked for, and the account that is stored for a resource of the tenant is the
    -- one that was returned; this holds however often attempts fail, are cut off, or lose their answer.
    pub provisioned_rows :
        (blake3 : List ℕ → List ℕ) (ranges : (n : ℕ) → IsAccountRange (occasion n).account_order)
        (w w' : World tb.Store) (accounts : Map ResourceType ℕ) (q : ResourceType)
        → IsIntact w.db
        → tenant_provisioning blake3 provisioning input w ≡ (ok accounts, w')
        → (get_tenant t w.db ≡ none)
          × (now : ℕ) × (get_tenant t w'.db ≡ some (tenant_row t input.name input.billing_tier now))
          × (mapped t q w'.db ≡ lookup q accounts)
    unfolding system_provisioning get_tenant
    provisioned_rows blake3 ranges w w' accounts q intact done =
        let p = tenant_provisioning-Provisioned blake3 provisioning input w w' accounts done in
        let (unknown, now, row) = inserted w p.w1 p.tenant_row in
        let (same2, unique) = created p.w1 p.w2 accounts p.tb_accounts in
        let start_db = same2 ∙ row in
        let unmapped =
          ap (mapped t q) start_db
          ∙ ap (Option.map _)
              (unknown_unmapped w.db.tenants w.db.tb_account_ids t q unknown intact.accounts) in
        let (tenants3, mapped3) =
          stored_mapping ranges q accounts p.w2 p.w3 unique unmapped p.mapping in
        let end_db =
          ap (λ (v : World tb.Store). v.db) (sym p.last) ∙ allocated p.w3 p.w4 _ p.wallet_loaded in
        let new_row =
          select_one_appended (is_tenant t) w.db.tenants
            (tenant_row t input.name input.billing_tier now) unknown (ground arith) in
        (
          select_one_absent (is_tenant t) w.db.tenants unknown,
          now,
          ap (λ (d : Database). select_one (is_tenant t) d.tenants) end_db
              ∙ ap (select_one (is_tenant t)) (tenants3 ∙ ap (λ (d : Database). d.tenants) start_db)
              ∙ new_row,
          ap (mapped t q) end_db ∙ mapped3,
        )
