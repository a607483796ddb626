-- ===== src/Accounting/TbActivities/Balances/Live.antt =====
-- What LookupAccountBalances reads.
use cloud_credit_system.Common.{
  ℕ, ◌≡◌, refl, ◌∙◌, ap, Option, none, some, List, [], ◌∷◌, arith, Result, ok, err, map, subst,
  Option-cases, inl, inr,
}
use cloud_credit_system.Common.Maps.{Map, lookup, IsUnique, insert-IsUnique}
use cloud_credit_system.Domain.Resource.{ResourceType, resource_key}
use cloud_credit_system.Ledger.Ids.{uuid_to_uint128}
use cloud_credit_system.Ledger.TigerBeetle.{TigerBeetle, Account}
use cloud_credit_system.Ledger.Accounts.{
  AccountError, BalanceSnapshot, snapshot_of, find_account, put_balance, balances_from,
  lookup_balances,
}
use cloud_credit_system.Ledger.Accounts.Laws.{balance_of, lookup_balances_reads}
use cloud_credit_system.Accounting.Signals.{QuotaSnapshotData}
use cloud_credit_system.Accounting.TbActivities.Balances.{
  snapshot_data, map_values, lookup_account_balances,
}

abbrev pub read_snapshot : Option BalanceSnapshot → Option QuotaSnapshotData
read_snapshot none = none
read_snapshot (some b) = some (snapshot_data b)

lookup-map_values :
    (r : ResourceType) (m : Map ResourceType BalanceSnapshot)
    → lookup r (map_values snapshot_data m) ≡ read_snapshot (lookup r m)
lookup-map_values r [] = refl
lookup-map_values r ((k, v) ∷ rest) = ground (arith, lookup-map_values r rest)

-- If TigerBeetle answers, the activity succeeds and returns for each resource the balance of its
-- account, as int64 values, and nothing for a resource whose account is not in the answer. The
-- list of accounts to look up names no resource twice.
pub lookup_account_balances_reads :
    (tb : TigerBeetle) (ids : Map ResourceType ℕ) (accounts : List Account) (s : tb.Store)
    → IsUnique ids
    → tb.lookup_accounts (map (λ p. uuid_to_uint128 p.1) ids) s ≡ some accounts
    → (b : Map ResourceType QuotaSnapshotData) × (lookup_account_balances tb ids s ≡ ok b)
      × ((r : ResourceType) → lookup r b ≡ read_snapshot (balance_of accounts (lookup r ids)))
unfolding lookup_account_balances
lookup_account_balances_reads tb ids accounts s u answered =
    let (b, is_ok, reads) = lookup_balances_reads tb ids accounts s u answered in
    (
      map_values snapshot_data b,
      rw (is_ok, lookup_account_balances) refl,
      λ r. lookup-map_values r b ∙ ap read_snapshot (reads r),
    )

balances_from-IsUnique :
    (m : Map ResourceType ℕ) (accounts : List Account) (result : Map ResourceType BalanceSnapshot)
    → IsUnique result
    → IsUnique (balances_from m accounts result)
unfolding balances_from
balances_from-IsUnique [] accounts result u = u
balances_from-IsUnique ((k, b) ∷ rest) accounts result u =
    balances_from-IsUnique rest accounts _ (put (find_account (uuid_to_uint128 b) accounts))
  where
    put : (a : Option Account) → IsUnique (put_balance k a result)
    put none = u
    put (some acc) = insert-IsUnique k (snapshot_of acc) result u

map_values-IsUnique :
    (m : Map ResourceType BalanceSnapshot) → IsUnique m → IsUnique (map_values snapshot_data m)
map_values-IsUnique [] u = tt
map_values-IsUnique ((k, v) ∷ rest) (new, u) =
    (lookup-map_values k rest ∙ ap read_snapshot new, map_values-IsUnique rest u)

abbrev IsUniqueIf : Result AccountError (Map ResourceType QuotaSnapshotData) → Type 0
IsUniqueIf (ok b) = IsUnique b
IsUniqueIf (err e) = Unit {0}

looked_up-IsUnique :
    (tb : TigerBeetle) (ids : Map ResourceType ℕ) (s : tb.Store)
    → IsUniqueIf (lookup_account_balances tb ids s)
unfolding lookup_account_balances lookup_balances
looked_up-IsUnique tb [] s = tt
looked_up-IsUnique tb ((k, id) ∷ rest) s =
    elim (Option-cases (tb.lookup_accounts (map (λ p. uuid_to_uint128 p.1) ((k, id) ∷ rest)) s)) [
      | inl e ↦ rw (e, lookup_account_balances, lookup_balances) tt
      | inr (accounts, e) ↦
          rw (e, lookup_account_balances, lookup_balances)
            (map_values-IsUnique (balances_from ((k, id) ∷ rest) accounts [])
              (balances_from-IsUnique ((k, id) ∷ rest) accounts [] tt))
    ]

-- The balances that the activity returns name no resource twice.
pub balances-IsUnique :
    (tb : TigerBeetle) (ids : Map ResourceType ℕ) (s : tb.Store)
    (b : Map ResourceType QuotaSnapshotData)
    → lookup_account_balances tb ids s ≡ ok b
    → IsUnique b
balances-IsUnique tb ids s b h = subst IsUniqueIf h (looked_up-IsUnique tb ids s)
