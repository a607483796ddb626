-- ===== src/System/Recorded.antt =====
-- What a projection records of the accounts that TigerBeetle answers with.
use cloud_credit_system.Common.{
  ℕ, ◌%◌, ◌≡◌, ◌≢◌, sym, ap, ◌∙◌, true, Option, some, List, [], ◌∷◌, ◌++◌, arith, All, map, nat_key,
  Result, ok,
}
use cloud_credit_system.Common.Int.{u64_mod, to_i64}
use cloud_credit_system.Common.Maps.{lookup, IsUnique}
use cloud_credit_system.Domain.Resource.{ResourceType, resource_key}
use cloud_credit_system.Ledger.Ids.{uuid_to_uint128}
use cloud_credit_system.Ledger.TigerBeetle.{TigerBeetle, Account}
use cloud_credit_system.Ledger.Accounts.{AccountError, snapshot_of, find_account}
use cloud_credit_system.Ledger.Accounts.Laws.{balance_of}
use cloud_credit_system.Accounting.Activities.{Balances}
use cloud_credit_system.Accounting.TbActivities.Balances.{snapshot_data, lookup_account_balances}
use cloud_credit_system.Accounting.TbActivities.Balances.Live.{
  read_snapshot, lookup_account_balances_reads,
}
use cloud_credit_system.Accounting.Workflow.State.{TenantAccountingState}
use cloud_credit_system.Accounting.Workflow.Flush.{project_balances}
use cloud_credit_system.System.Projection.{stored, projected}
use cloud_credit_system.System.Projected.{IsRange, projection_stores}
use cloud_credit_system.System.World.{Occasion, World, system_activities}

-- The first account with an ID is the one that is found.
find_account-append :
    (id : ℕ) (before after : List Account) (acc : Account)
    → All (λ (a : Account). a.id ≢ id) before
    → acc.id ≡ id
    → find_account id (before ++ (acc ∷ after)) ≡ some acc
unfolding find_account
find_account-append id [] after acc h e = ground (arith, e)
find_account-append id (a ∷ before) after acc h e =
    ground (arith, h.0, find_account-append id before after acc h.1 e)

same_ok : {b b' : Balances} (r : Result AccountError Balances) → r ≡ ok b → r ≡ ok b' → b ≡ b'
same_ok r e e' = cc (e, e')

-- What is read of an account: its fields as int64, of the low 64 bits.
read_account :
    (accounts : List Account) (o : Option ℕ) (id : ℕ) (acc : Account)
    → o ≡ some id
    → find_account (uuid_to_uint128 id) accounts ≡ some acc
    → read_snapshot (balance_of accounts o)
      ≡ some (record {
        credits_total = to_i64 (acc.credits_posted % u64_mod);
        debits_posted = to_i64 (acc.debits_posted % u64_mod);
        debits_pending = to_i64 (acc.debits_pending % u64_mod);
      })
unfolding snapshot_data snapshot_of
read_account accounts o id acc e found = ground (arith, e, found)

module _ (blake3 : List ℕ → List ℕ) (tb : TigerBeetle) (parse : ℕ → Option ℕ)
    (occasion : ℕ → Occasion) (ranges : (n : ℕ) → IsRange (occasion n).order) where
  -- A projection, where every attempt ranges over each key of a map once. TigerBeetle answers the lookup of the
  -- tenant's account IDs with a list of accounts, and the first of the list with the ID that the
  -- tenant has for a resource is `acc`; the map of the tenant names no resource twice. If
  -- LookupAccountBalances and UpdateQuotaSnapshots succeed, then PostgreSQL has stored for the tenant
  -- and the resource the posted credits, the posted debits and the pending debits of `acc`, each as
  -- the int64 of its low 64 bits; and the projection has changed nothing in TigerBeetle.
  pub projection_is_balances :
      (s : TenantAccountingState) (t : ℕ) (w : World tb.Store) (b : Balances) (r : ResourceType)
      (id : ℕ) (before after : List Account) (acc : Account)
      → parse s.tenant_id ≡ some t
      → IsUnique s.account_map
      → lookup r s.account_map ≡ some id
      → tb.lookup_accounts (map (λ p. uuid_to_uint128 p.1) s.account_map) w.store
        ≡ some (before ++ (acc ∷ after))
      → All (λ (a : Account). a.id ≢ uuid_to_uint128 id) before
      → acc.id ≡ uuid_to_uint128 id
      → ((system_activities blake3 tb parse occasion).lookup_account_balances s.account_map w).0
        ≡ some b
      → ((system_activities blake3 tb parse occasion).update_quota_snapshots s.tenant_id b
          ((system_activities blake3 tb parse occasion).lookup_account_balances s.account_map
            w).1).0
        ≡ true
      → let w' = project_balances blake3 (system_activities blake3 tb parse occasion) s w in
        (w'.store ≡ w.store)
        × (stored t r w'.db
            ≡ some (record {
              credits_total = to_i64 (acc.credits_posted % u64_mod);
              debits_posted = to_i64 (acc.debits_posted % u64_mod);
              debits_pending = to_i64 (acc.debits_pending % u64_mod);
            }))
  projection_is_balances s t w b r id before after acc parsed unique wallet answered others is_it
        found updated =
      let accounts = before ++ (acc ∷ after) in
      let (same_store, read, row) =
        projection_stores blake3 tb parse occasion ranges s t w b r parsed found updated in
      let (b', read', values) =
        lookup_account_balances_reads tb s.account_map accounts w.store unique answered in
      let same : b ≡ b' =
        same_ok _ (ap (lookup_account_balances tb s.account_map) (sym same_store) ∙ read) read' in
      let held =
        ap (lookup r) same
        ∙ values r
        ∙ read_account accounts (lookup r s.account_map) id acc wallet
            (find_account-append (uuid_to_uint128 id) before after acc others is_it) in
      (same_store, row ∙ ap (λ o. projected o (stored t r w.db)) held)
