-- ===== src/Accounting/Provisioning/Steps.antt =====
-- What a provisioning that succeeds has done, and the IDs of its allocations.
use cloud_credit_system.Common.{
  ℕ, ◌≡◌, ◌≢◌, refl, sym, ap, subst, inl, inr, Bool, true, false, Option, none, some, List, [], ◌∷◌,
  arith, ok, All, Option-cases,
}
use cloud_credit_system.Common.Int.{ℤ, to_u64}
use cloud_credit_system.Common.Maps.{Map, lookup, insert, lookup-insert}
use cloud_credit_system.Domain.Resource.{ResourceType, resource_key, ledger_id}
use cloud_credit_system.Ledger.Ids.{derive_allocation_transfer_id, uint128_to_bytes}
use cloud_credit_system.Accounting.Provisioning.{
  TenantProvisioningInput, ProvisioningActivities, ProvisioningError, ChildStart, started,
  already_started, start_failed, Work, ◌>>=◌, return_ok, require, obtain, require_started,
  start_tenant, load_wallet, store_mapping, accounting_input, provisioning_allocation,
  alloc_transfer_ids, tenant_provisioning, insert_tenant_failed, create_accounts_failed,
  insert_mapping_failed, unknown_resource, submit_allocations_failed,
}

module _ {W B : Type 0} (w w' : W) (b : B) where
  obtain_then :
      {A : Type 0} (e : ProvisioningError) (call : W → Option A × W) (f : A → Work W B)
      → (obtain e call >>= f) w ≡ (ok b, w')
      → (a : A) × (w1 : W) × (call w ≡ (some a, w1)) × (f a w1 ≡ (ok b, w'))
  obtain_then {A} e call f h = go (call w) refl h
    where
      go :
          (p : Option A × W)
          → call w ≡ p
          → (obtain e (λ x. p) >>= f) w ≡ (ok b, w')
          → (a : A) × (w1 : W) × (call w ≡ (some a, w1)) × (f a w1 ≡ (ok b, w'))
      go (some a, w1) q h' = (a, w1, q, h')
      go (none, w1) q h' = absurd (cc h')

  pub require_then :
      (e : ProvisioningError) (call : W → Bool × W) (f : Unit {0} → Work W B)
      → (require e call >>= f) w ≡ (ok b, w')
      → (w1 : W) × (call w ≡ (true, w1)) × (f tt w1 ≡ (ok b, w'))
  require_then e call f h = go (call w) refl h
    where
      go :
          (p : Bool × W)
          → call w ≡ p
          → (require e (λ x. p) >>= f) w ≡ (ok b, w')
          → (w1 : W) × (call w ≡ (true, w1)) × (f tt w1 ≡ (ok b, w'))
      go (true, w1) q h' = (w1, q, h')
      go (false, w1) q h' = absurd (cc h')

  started_then :
      (call : W → ChildStart × W) (f : Unit {0} → Work W B)
      → (require_started call >>= f) w ≡ (ok b, w')
      → ((call w).0 ≢ start_failed) × (f tt (call w).1 ≡ (ok b, w'))
  started_then call f h = go (call w).0 refl h
    where
      go :
          (o : ChildStart)
          → (call w).0 ≡ o
          → (require_started (λ x. (o, (call w).1)) >>= f) w ≡ (ok b, w')
          → ((call w).0 ≢ start_failed) × (f tt (call w).1 ≡ (ok b, w'))
      go started q h' = (λ e. absurd (cc (q, e)), h')
      go already_started q h' = (λ e. absurd (cc (q, e)), h')
      go start_failed q h' = absurd (cc h')

module _ (blake3 : List ℕ → List ℕ) {W : Type 0} (act : ProvisioningActivities W) where
  -- The calls of a provisioning from `w` to `w'` that returns `accounts`: the world before each.
  pub record Provisioned (input : TenantProvisioningInput) (w w' : W)
      (accounts : Map ResourceType ℕ) : Type 0 where
    pub w1 : W
    pub w2 : W
    pub w3 : W
    pub w4 : W
    pub ids : Map ResourceType ℕ
    pub tenant_row : act.insert_tenant input.tenant_id input.name input.billing_tier w ≡ (true, w1)
    pub tb_accounts : act.create_tenant_tb_accounts input.tenant_uuid w1 ≡ (some accounts, w2)
    pub mapping : act.insert_tb_account_mapping input.tenant_id accounts w2 ≡ (true, w3)
    pub derived :
        alloc_transfer_ids blake3 input.tenant_uuid input.period_start_ns input.credits []
        ≡ some ids
    pub wallet_loaded :
        act.submit_allocation_transfers (provisioning_allocation input accounts ids) w3 ≡ (true, w4)
    pub runs : (act.start_accounting (accounting_input input accounts) w4).0 ≢ start_failed
    pub last : (act.start_accounting (accounting_input input accounts) w4).1 ≡ w'

  abbrev derived_ids : TenantProvisioningInput → W → Option (Map ResourceType ℕ) × W
  derived_ids input w =
      (alloc_transfer_ids blake3 input.tenant_uuid input.period_start_ns input.credits [], w)

  abbrev derive : TenantProvisioningInput → Work W (Map ResourceType ℕ)
  derive input = obtain unknown_resource (derived_ids input)

  -- If TenantProvisioningWorkflow returns accounts, then all of its steps have succeeded, each on the
  -- world that the step before left: the tenant's row, the accounts it returns, their mapping, the
  -- initial allocation under derived IDs, and an accounting workflow that is started with these
  -- accounts and nothing carried over, or was running already.
  pub tenant_provisioning-Provisioned :
      (input : TenantProvisioningInput) (w w' : W) (accounts : Map ResourceType ℕ)
      → tenant_provisioning blake3 act input w ≡ (ok accounts, w')
      → Provisioned input w w' accounts
  unfolding tenant_provisioning store_mapping load_wallet start_tenant
  tenant_provisioning-Provisioned input w w' accounts h =
      let create =
        obtain create_accounts_failed (act.create_tenant_tb_accounts input.tenant_uuid) in
      let (w1, e1, h1) =
        require_then w w' accounts insert_tenant_failed
          (act.insert_tenant input.tenant_id input.name input.billing_tier)
          (λ _. create >>= store_mapping blake3 act input) h in
      let (found, w2, e2, h2) =
        obtain_then w1 w' accounts create_accounts_failed
          (act.create_tenant_tb_accounts input.tenant_uuid) (store_mapping blake3 act input) h1 in
      let (w3, e3, h3) =
        require_then w2 w' accounts insert_mapping_failed
          (act.insert_tb_account_mapping input.tenant_id found)
          (λ _. derive input >>= load_wallet blake3 act input found) h2 in
      let (ids, w3', e4, h4) =
        obtain_then w3 w' accounts unknown_resource (derived_ids input)
          (load_wallet blake3 act input found) h3 in
      let allocate = act.submit_allocation_transfers (provisioning_allocation input found ids) in
      let (w4, e5, h5) =
        require_then w3' w' accounts submit_allocations_failed allocate
          (λ _. start_tenant blake3 act input found) h4 in
      let (is_started, h6) =
        started_then w4 w' accounts (act.start_accounting (accounting_input input found))
          (λ _. return_ok found) h5 in
      let same : found ≡ accounts = ground (arith, h6) in
      subst (λ m. Provisioned input w w' m) same
        (record {
          w1 = w1;
          w2 = w2;
          w3 = w3;
          w4 = w4;
          ids = ids;
          tenant_row = e1;
          tb_accounts = e2;
          mapping = e3;
          derived = ap (λ p. p.0) e4;
          wallet_loaded = subst (λ x. allocate x ≡ (true, w4)) (sym (ap (λ p. p.1) e4)) e5;
          runs = is_started;
          last = ap (λ p. p.1) h6;
        })

module _ (blake3 : List ℕ → List ℕ) (tenant : ℕ) (ns : ℤ) where
  -- The transfer ID of the initial credit on a ledger.
  abbrev pub credit_id : ℕ → ℕ
  credit_id ledger =
      uint128_to_bytes (derive_allocation_transfer_id blake3 tenant (to_u64 ns) ledger)

  -- A resource has the ID of the credit on its ledger.
  abbrev pub HasCreditId : Map ResourceType ℕ → ResourceType → Type 0
  HasCreditId ids r =
      (ledger : ℕ) × (ledger_id r ≡ some ledger) × (lookup r ids ≡ some (credit_id ledger))

  credit_id_stays :
      (credits : Map ResourceType ℤ) (ids out : Map ResourceType ℕ) (r : ResourceType)
      → alloc_transfer_ids blake3 tenant ns credits ids ≡ some out
      → HasCreditId ids r
      → HasCreditId out r
  unfolding alloc_transfer_ids
  credit_id_stays [] ids out r h (l, e, i) = (l, e, ground (arith, h, i))
  credit_id_stays ((k, c) ∷ rest) ids out r h (l, e, i) = elim (Option-cases (ledger_id k)) [
    | inl n ↦ absurd (ground (arith, n, h))
    | inr (l', e') ↦
        credit_id_stays rest (insert k (credit_id l') ids) out r (ground (arith, e', h)) (
          l,
          e,
          ground (arith, i, e, e', lookup-insert k r (credit_id l') ids, resource_key.same_iff k r),
        )
  ]

  pub credits-HasCreditId :
      (credits : Map ResourceType ℤ) (ids out : Map ResourceType ℕ)
      → alloc_transfer_ids blake3 tenant ns credits ids ≡ some out
      → All (λ (p : ResourceType × ℤ). HasCreditId out p.0) credits
  unfolding alloc_transfer_ids
  credits-HasCreditId [] ids out h = tt
  credits-HasCreditId ((k, c) ∷ rest) ids out h = elim (Option-cases (ledger_id k)) [
    | inl n ↦ absurd (ground (arith, n, h))
    | inr (l, e) ↦
        let next = insert k (credit_id l) ids in
        let goes : alloc_transfer_ids blake3 tenant ns rest next ≡ some out =
          ground (arith, e, h) in
        (
          credit_id_stays rest next out k goes (
            l,
            e,
            ground (arith, lookup-insert k k (credit_id l) ids, resource_key.same_iff k k),
          ),
          credits-HasCreditId rest next out goes,
        )
  ]
