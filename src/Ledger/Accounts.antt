-- ===== src/Ledger/Accounts.antt =====
-- internal/ledger/accounts.go: the accounts that are created, and their balances.
pub mod Laws
use cloud_credit_system.Common.{
  ℕ, ◌+◌, ◌%◌, Bool, true, false, Option, none, some, List, [], ◌∷◌, ◌==◌, nat_key, if◌then◌else◌,
  Result, ok, err, map, Key, ◌&&◌, get_elem?, ◌≡◌, ◌↔◌, arith,
}
use cloud_credit_system.Common.Int.{u64_mod}
use cloud_credit_system.Common.Maps.{Map, lookup, insert}
use cloud_credit_system.Domain.Resource.{
  ResourceType, resource_key, resource_beq, resource_beq_iff, all_resources, ledger_id,
}
use cloud_credit_system.Domain.Codes.{
  AccountType, operator, sink, account_code_from_type, account_code_tenant_quota, type_beq,
  type_beq_iff,
}
use cloud_credit_system.Ledger.Ids.{uuid_to_uint128}
use cloud_credit_system.Ledger.TigerBeetle.{
  Account, AccountEventResult, CreateAccountResult, account_ok, account_exists,
  other_account_result, TigerBeetle,
}

-- `code_panic` is a panic of LedgerID, of AccountCodeFromType or of an index out of range.
pub data AccountError : Type 0 where
  create_accounts_failed lookup_accounts_failed code_panic : AccountError
  refused : ℕ → CreateAccountResult → AccountError

pub record GlobalAccountKey : Type 0 where
  pub resource : ResourceType
  pub account_type : AccountType

abbrev pub global_beq : GlobalAccountKey → GlobalAccountKey → Bool
global_beq a b = resource_beq a.resource b.resource && type_beq a.account_type b.account_type

pub global_beq_iff : (a b : GlobalAccountKey) → (global_beq a b ≡ true) ↔ (a ≡ b)
global_beq_iff a b =
    ground
      (arith, resource_beq_iff a.resource b.resource, type_beq_iff a.account_type b.account_type)

instance abbrev pub global_key : Key GlobalAccountKey
global_key = record { same = global_beq; same_iff = global_beq_iff }

-- `id, ok := ids[key]; if !ok { id = RandomID() }`
abbrev pub id_or : ℕ → Option ℕ → ℕ
id_or random none = random
id_or random (some id) = id

-- The account of the tenant's wallet for one resource.
unfoldable pub tenant_account : ℕ → ResourceType → ℕ → Option Account
tenant_account tenant_uuid r id = elim (ledger_id r) [
  | none ↦ none
  | some ledger ↦ some (record {
    id = id;
    ledger = ledger;
    code = account_code_tenant_quota;
    debits_must_not_exceed_credits = true;
    history = true;
    user_data_128 = uuid_to_uint128 tenant_uuid;
    credits_posted = 0;
    debits_posted = 0;
    debits_pending = 0;
  })
]

-- The account of an operator or a sink, with no flags.
unfoldable pub global_account : GlobalAccountKey → ℕ → Option Account
global_account key id = elim (ledger_id key.resource) [
  | none ↦ none
  | some ledger ↦ elim (account_code_from_type key.account_type) [
    | none ↦ none
    | some code ↦ some (record {
      id = id;
      ledger = ledger;
      code = code;
      debits_must_not_exceed_credits = false;
      history = false;
      user_data_128 = 0;
      credits_posted = 0;
      debits_posted = 0;
      debits_pending = 0;
    })
  ]
]

-- The keys of the nested loop of CreateGlobalAccounts.
unfoldable pub global_keys : List ResourceType → List GlobalAccountKey
global_keys [] = []
global_keys (r ∷ rs) =
    record { resource = r; account_type = operator }
    ∷ record { resource = r; account_type = sink }
    ∷ global_keys rs

module _ {K : Type 0} ⦃e : Key K⦄ (random : ℕ → ℕ) (existing : Map K ℕ) where
  -- `result[key] = id` over the keys; `random i` is the draw for the key at index `i`.
  unfoldable pub chosen_ids : ℕ → List K → Map K ℕ → Map K ℕ
  chosen_ids i [] result = result
  chosen_ids i (k ∷ ks) result =
      chosen_ids (i + 1) ks (insert k (id_or (random i) (lookup k existing)) result)

  -- The accounts that the loop appends.
  unfoldable pub chosen_accounts : (K → ℕ → Option Account) → ℕ → List K → Option (List Account)
  chosen_accounts account i [] = some []
  chosen_accounts account i (k ∷ ks) =
      let rest = chosen_accounts account (i + 1) ks in
      elim (account k (id_or (random i) (lookup k existing))) [
        | none ↦ none
        | some a ↦ elim rest [ none ↦ none | some accounts ↦ some (a ∷ accounts) ]
      ]

-- The loop over the results: the first that is neither OK nor "exists" is the error. It names the
-- key at its index, which is a panic where there is none.
unfoldable pub check_created : {K : Type 0} → List K → List AccountEventResult → Option AccountError
check_created keys [] = none
check_created keys (r ∷ rs) = elim r.result [
  | account_ok ↦ check_created keys rs
  | account_exists ↦ check_created keys rs
  | other_account_result n ↦ elim (get_elem? keys r.index) [
    | none ↦ some code_panic
    | some k ↦ some (refused r.index r.result)
  ]
]

-- `types.BalanceSnapshot`
pub record BalanceSnapshot : Type 0 where
  pub credits_posted : ℕ
  pub debits_posted : ℕ
  pub debits_pending : ℕ

-- `uint128Lo`
abbrev pub uint128_lo : ℕ → ℕ
uint128_lo v = v % u64_mod

unfoldable pub snapshot_of : Account → BalanceSnapshot
snapshot_of acc = record {
  credits_posted = uint128_lo acc.credits_posted;
  debits_posted = uint128_lo acc.debits_posted;
  debits_pending = uint128_lo acc.debits_pending;
}

-- The inner loop of LookupBalances: the first account with the ID.
unfoldable pub find_account : ℕ → List Account → Option Account
find_account id [] = none
find_account id (acc ∷ accounts) = if acc.id == id then some acc else find_account id accounts

-- The body of the outer loop, for a key whose account is found or not.
abbrev pub put_balance :
    ResourceType
    → Option Account
    → Map ResourceType BalanceSnapshot
    → Map ResourceType BalanceSnapshot
put_balance k none result = result
put_balance k (some acc) result = insert k (snapshot_of acc) result

unfoldable pub balances_from :
    Map ResourceType ℕ
    → List Account
    → Map ResourceType BalanceSnapshot
    → Map ResourceType BalanceSnapshot
balances_from [] accounts result = result
balances_from ((k, b) ∷ rest) accounts result =
    balances_from rest accounts (put_balance k (find_account (uuid_to_uint128 b) accounts) result)

module _ (tb : TigerBeetle) where
  open tb use {Store, create_accounts, lookup_accounts}

  -- The common end of the two functions that create accounts.
  unfoldable pub create_chosen :
      {K : Type 0}
      → List K
      → Option (List Account)
      → Map K ℕ
      → Store
      → Result AccountError (Map K ℕ) × Store
  create_chosen keys none result s = (err code_panic, s)
  create_chosen keys (some accounts) result s =
      let (results, s') = create_accounts accounts s in
      (
        elim results [
          | none ↦ err create_accounts_failed
          | some rs ↦ elim (check_created keys rs) [ none ↦ ok result | some e ↦ err e ]
        ],
        s',
      )

  unfoldable pub create_global_accounts :
      (ℕ → ℕ)
      → Map GlobalAccountKey ℕ
      → Store
      → Result AccountError (Map GlobalAccountKey ℕ) × Store
  create_global_accounts random id_map s =
      let keys = global_keys all_resources in
      create_chosen keys (chosen_accounts random id_map global_account 0 keys)
        (chosen_ids random id_map 0 keys []) s

  unfoldable pub create_tenant_quota_accounts :
      (ℕ → ℕ) → ℕ → Map ResourceType ℕ → Store → Result AccountError (Map ResourceType ℕ) × Store
  create_tenant_quota_accounts random tenant_uuid existing s =
      create_chosen all_resources
        (chosen_accounts random existing (tenant_account tenant_uuid) 0 all_resources)
        (chosen_ids random existing 0 all_resources []) s

  -- LookupBalances, which ranges over the map in the order of the list.
  unfoldable pub lookup_balances :
      Map ResourceType ℕ → Store → Result AccountError (Map ResourceType BalanceSnapshot)
  lookup_balances [] s = ok []
  lookup_balances ((k, b) ∷ rest) s =
      elim (lookup_accounts (map (λ p. uuid_to_uint128 p.1) ((k, b) ∷ rest)) s) [
        | none ↦ err lookup_accounts_failed
        | some accounts ↦ ok (balances_from ((k, b) ∷ rest) accounts [])
      ]
