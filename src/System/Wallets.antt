-- ===== src/System/Wallets.antt =====
-- The accounts of a tenant: those that CreateTenantTBAccounts returns, and InsertTBAccountMapping with its
-- attempts.
use cloud_credit_system.Common.{
  ℕ, ◌≡◌, refl, sym, ap, ◌∙◌, subst, ◌⊎◌, inl, inr, Bool, true, Option, none, some, [], Result, ok,
  err,
}
use cloud_credit_system.Common.Maps.{Map, lookup, IsUnique}
use cloud_credit_system.Domain.Resource.{ResourceType, resource_key}
use cloud_credit_system.Domain.Resource.{all_resources}
use cloud_credit_system.Ledger.Ids.{uint128_to_bytes}
use cloud_credit_system.Ledger.Accounts.{AccountError, chosen_ids, create_tenant_quota_accounts}
use cloud_credit_system.Ledger.Accounts.Laws.{create_chosen-ok}
use cloud_credit_system.Accounting.TbActivities.Balances.{map_values, create_tenant_tb_accounts}
use cloud_credit_system.Ledger.TigerBeetle.{TigerBeetle}
use cloud_credit_system.Db.Schema.{Database}
use cloud_credit_system.System.Provisioning.{map_all}
use cloud_credit_system.System.Mapping.{mapped, kept, map_all-mapped}

-- What InsertTBAccountMapping leaves of the tenants and of one wallet, before and after it succeeds.
module _ (t : ℕ) (q : ResourceType) (accounts : Map ResourceType ℕ) (before : Database) where
  abbrev pub Mapping : Database → Type 0
  Mapping db =
      (db.tenants ≡ before.tenants) × ((mapped t q db ≡ none) ⊎ (mapped t q db ≡ lookup q accounts))

  abbrev pub Mapped : Database → Type 0
  Mapped db = (db.tenants ≡ before.tenants) × (mapped t q db ≡ lookup q accounts)

  kept_same : (o : Option ℕ) → kept o o ≡ o
  kept_same none = refl
  kept_same (some a) = refl

  kept_to :
      (old : Option ℕ)
      → (old ≡ none) ⊎ (old ≡ lookup q accounts)
      → kept old (lookup q accounts) ≡ lookup q accounts
  kept_to old (inl none_yet) = rw none_yet refl
  kept_to old (inr there) = rw there (kept_same (lookup q accounts))

  pub attempt-Mapping :
      (reaches : ℕ → Bool) (now : ℕ) (m : Map ResourceType ℕ) (db : Database)
      → lookup q m ≡ lookup q accounts
      → Mapping db
      → let (success, db') = map_all reaches t now 0 m db in
        Mapping db' × (success ≡ true → Mapped db')
  attempt-Mapping reaches now m db same (tenants, old) =
      let (tenants', anyhow, done) = map_all-mapped reaches t now m 0 db q in
      let whole = ap (kept (mapped t q db)) same ∙ kept_to (mapped t q db) old in
      (
        (tenants' ∙ tenants, step anyhow whole),
        λ success. (tenants' ∙ tenants, done success ∙ whole),
      )
    where
      step :
          {now' new' : Option ℕ}
          → (now' ≡ mapped t q db) ⊎ (now' ≡ new')
          → new' ≡ lookup q accounts
          → (now' ≡ none) ⊎ (now' ≡ lookup q accounts)
      step (inr more) whole = inr (more ∙ whole)
      step (inl still) whole = rw still old

module _ (tb : TigerBeetle) (random : ℕ → ℕ) (uuid : ℕ) (s : tb.Store)
    (accounts : Map ResourceType ℕ) where
  chosen-IsUnique : IsUnique (map_values uint128_to_bytes (chosen_ids random [] 0 all_resources []))
  unfolding chosen_ids
  chosen-IsUnique = (refl, (refl, (refl, tt)))

  -- The accounts that CreateTenantTBAccounts returns have each resource once.
  pub created-IsUnique :
      (create_tenant_tb_accounts tb random uuid s).0 ≡ ok accounts → IsUnique accounts
  unfolding create_tenant_tb_accounts create_tenant_quota_accounts
  created-IsUnique e =
      go (create_tenant_quota_accounts tb random uuid [] s).0
        (λ m e'. create_chosen-ok tb _ _ m s e') e
    where
      go :
          (r : Result AccountError (Map ResourceType ℕ))
          → ((m : Map ResourceType ℕ) → r ≡ ok m → m ≡ chosen_ids random [] 0 all_resources [])
          → (elim r as (λ _. Result AccountError (Map ResourceType ℕ)) [
            | ok m ↦ ok (map_values uint128_to_bytes m)
            | err x ↦ err x
          ])
            ≡ ok accounts
          → IsUnique accounts
      go (err x) chosen e' = absurd (cc e')
      go (ok m) chosen e' =
          let same : map_values uint128_to_bytes m ≡ accounts = cc e' in
          subst IsUnique same (
            subst (λ ids. IsUnique (map_values uint128_to_bytes ids)) (sym (chosen m refl))
              chosen-IsUnique)

-- Ranging over the map of accounts visits every key once.
abbrev pub IsAccountRange : (Map ResourceType ℕ → Map ResourceType ℕ) → Type 0
IsAccountRange order =
    (m : Map ResourceType ℕ) → IsUnique m → (r : ResourceType) → lookup r (order m) ≡ lookup r m
