-- ===== src/Ledger/Accounts/Laws.antt =====
-- Which accounts a tenant gets, and which balances are read back.
use cloud_credit_system.Common.{
  ℕ, ◌≡◌, refl, true, Option, none, some, List, [], ◌∷◌, arith, All, nat_key, inl, inr,
  if◌then◌else◌, ok, map, ◌==◌, Option-cases,
}
use cloud_credit_system.Common.Maps.{Map, lookup, lookup-insert, IsUnique}
use cloud_credit_system.Domain.Resource.{
  ResourceType, resource_key, all_resources, cpu_hours, memory_gb_hours, active_nodes,
}
use cloud_credit_system.Domain.Codes.{account_code_tenant_quota}
use cloud_credit_system.Ledger.Ids.{uuid_to_uint128}
use cloud_credit_system.Ledger.TigerBeetle.{Account, TigerBeetle}
use cloud_credit_system.Ledger.Accounts.{
  BalanceSnapshot, snapshot_of, find_account, put_balance, balances_from, lookup_balances,
  chosen_ids, chosen_accounts, create_chosen, tenant_account, create_tenant_quota_accounts,
}

-- The balance of the first account with the ID that the map has for a resource.
abbrev pub balance_of : List Account → Option ℕ → Option BalanceSnapshot
balance_of accounts none = none
balance_of accounts (some b) = elim (find_account (uuid_to_uint128 b) accounts) [
  | none ↦ none
  | some acc ↦ some (snapshot_of acc)
]

-- The first of two options that is there.
abbrev either : Option BalanceSnapshot → Option BalanceSnapshot → Option BalanceSnapshot
either none b = b
either (some a) b = some a

lookup-put_balance :
    (r k : ResourceType) (b : ℕ) (accounts : List Account)
    (result : Map ResourceType BalanceSnapshot)
    → lookup r (put_balance k (find_account (uuid_to_uint128 b) accounts) result) ≡ (
        if k == r then either (balance_of accounts (some b)) (lookup r result) else lookup r result)
lookup-put_balance r k b accounts result =
    elim (Option-cases (find_account (uuid_to_uint128 b) accounts)) [
      | inl e ↦ ground (arith, e)
      | inr (acc, e) ↦ ground (arith, e, lookup-insert k r (snapshot_of acc) result)
    ]

lookup-balances_from :
    (r : ResourceType) (m : Map ResourceType ℕ) (accounts : List Account)
    (result : Map ResourceType BalanceSnapshot)
    → IsUnique m
    → lookup r (balances_from m accounts result)
      ≡ either (balance_of accounts (lookup r m)) (lookup r result)
unfolding balances_from
lookup-balances_from r [] accounts result u = refl
lookup-balances_from r ((k, b) ∷ rest) accounts result u =
    let next = put_balance k (find_account (uuid_to_uint128 b) accounts) result in
    ground (
      arith,
      lookup-balances_from r rest accounts next u.1,
      lookup-put_balance r k b accounts result,
      resource_key.same_iff k r,
    )

-- A wallet of the tenant: TigerBeetle refuses debits beyond its credits and keeps its history.
pub record IsWallet (tenant_uuid : ℕ) (acc : Account) : Type 0 where
  pub limited : acc.debits_must_not_exceed_credits ≡ true
  pub has_history : acc.history ≡ true
  pub owner : acc.user_data_128 ≡ uuid_to_uint128 tenant_uuid
  pub code : acc.code ≡ account_code_tenant_quota
  pub empty : (acc.credits_posted ≡ 0) × (acc.debits_posted ≡ 0) × (acc.debits_pending ≡ 0)

wallet :
    (tenant_uuid : ℕ) (r : ResourceType) (id : ℕ) (acc : Account)
    → tenant_account tenant_uuid r id ≡ some acc
    → IsWallet tenant_uuid acc
unfolding tenant_account
wallet tenant_uuid r id acc h = ground (arith, h)

module _ (random : ℕ → ℕ) (tenant_uuid : ℕ) (existing : Map ResourceType ℕ) where
  -- CreateTenantQuotaAccounts asks for three accounts, one in each ledger, that are all wallets of the
  -- tenant; the account at each place has the ID that is returned for that resource: the existing one,
  -- or a fresh one.
  pub tenant_wallets :
      let ids = chosen_ids random existing 0 all_resources [] in
      (accounts : List Account) × (chosen_accounts random existing
          (tenant_account tenant_uuid)
          0
          all_resources
        ≡ some accounts)
      × All (IsWallet tenant_uuid) accounts
      × (map (λ a. a.ledger) accounts ≡ 1 ∷ 2 ∷ 3 ∷ [])
      × (map (λ a. some a.id) accounts ≡ map (λ r. lookup r ids) all_resources)
  unfolding chosen_ids chosen_accounts tenant_account
  tenant_wallets = (
    _,
    refl,
    (
      wallet tenant_uuid cpu_hours _ _ refl,
      (wallet tenant_uuid memory_gb_hours _ _ refl, (wallet tenant_uuid active_nodes _ _ refl, tt)),
    ),
    refl,
    refl,
  )

module _ (tb : TigerBeetle) where
  -- LookupBalances returns for each resource the balance of its account, the low words of the first
  -- account with that ID in the answer, and nothing for a resource whose account is not in the answer.
  pub lookup_balances_reads :
      (m : Map ResourceType ℕ) (accounts : List Account) (s : tb.Store)
      → IsUnique m
      → tb.lookup_accounts (map (λ p. uuid_to_uint128 p.1) m) s ≡ some accounts
      → (b : Map ResourceType BalanceSnapshot) × (lookup_balances tb m s ≡ ok b)
        × ((r : ResourceType) → lookup r b ≡ balance_of accounts (lookup r m))
  unfolding lookup_balances
  lookup_balances_reads [] accounts s u answered = ([], refl, λ r. refl)
  lookup_balances_reads ((k, b) ∷ rest) accounts s u answered = (
    balances_from ((k, b) ∷ rest) accounts [],
    ground (arith, answered),
    λ r. ground (arith, lookup-balances_from r ((k, b) ∷ rest) accounts [] u),
  )

  pub create_chosen-ok :
      (accounts : Option (List Account)) (ids m : Map ResourceType ℕ) (s : tb.Store)
      → (create_chosen tb all_resources accounts ids s).0 ≡ ok m
      → m ≡ ids
  unfolding create_chosen
  create_chosen-ok none ids m s h = absurd (cc h)
  create_chosen-ok (some accounts) ids m s h = ground (arith, h)

  -- A later call that is given the IDs which an earlier one returned draws no new IDs: whatever the
  -- store, it does and returns what the earlier call would do and return there.
  pub created_again :
      (random random' : ℕ → ℕ) (tenant_uuid : ℕ) (existing m : Map ResourceType ℕ) (s s' : tb.Store)
      → (create_tenant_quota_accounts tb random tenant_uuid existing s).0 ≡ ok m
      → create_tenant_quota_accounts tb random' tenant_uuid m s'
        ≡ create_tenant_quota_accounts tb random tenant_uuid existing s'
  unfolding create_tenant_quota_accounts chosen_ids chosen_accounts
  created_again random random' tenant_uuid existing m s s' h = rw (create_chosen-ok _ _ m s h) refl
