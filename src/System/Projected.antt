-- ===== src/System/Projected.antt =====
-- The projection of a flush: what PostgreSQL stores after it are the balances that were read.
use cloud_credit_system.Common.{
  ℕ, ◌+◌, ◌≡◌, refl, sym, ap, ◌∙◌, subst, inl, inr, Bool, true, Option, none, some, List, [], ◌∷◌,
  Bool-cases, ok,
}
use cloud_credit_system.Common.Maps.{Map, lookup, IsUnique}
use cloud_credit_system.Domain.Resource.{ResourceType, resource_key}
use cloud_credit_system.Accounting.Signals.{QuotaSnapshotData}
use cloud_credit_system.Accounting.Activities.{Activities, Balances}
use cloud_credit_system.Ledger.TigerBeetle.{TigerBeetle}
use cloud_credit_system.Db.Schema.{QuotaConfig, Database}
use cloud_credit_system.System.Postgres.{
  for_tenant, crosses, upsert_all, mark_all, check_all, update_quota_snapshots, check_soft_limits,
}
use mathlib.Core.Option
use cloud_credit_system.Db.Table.{select_one}
use cloud_credit_system.Db.Quota.{
  is_snapshot, list_quota_configs_by_tenant, mark_soft_limit_alert_sent,
}
use cloud_credit_system.Accounting.TbActivities.Balances.{lookup_account_balances}
use cloud_credit_system.Accounting.TbActivities.Balances.Live.{balances-IsUnique}
use cloud_credit_system.Accounting.Workflow.State.{TenantAccountingState}
use cloud_credit_system.Accounting.Workflow.Flush.{project_balances}
use cloud_credit_system.System.Runs.{retry_keeps}
use cloud_credit_system.System.World.{
  Occasion, World, maximum_attempts, value_of, system_activities,
}
use cloud_credit_system.System.Attempts.{retry_leads, value_ok, done-true, succeeded-some}
use cloud_credit_system.System.Projection.{
  snapshot_values, stored, projected, upsert_all_projects, upsert_all_leaves,
}

-- An earlier attempt only touched resources that are written again.
projected_over :
    {old middle : Option QuotaSnapshotData} (o : Option QuotaSnapshotData)
    → (o ≡ none → middle ≡ old)
    → projected o middle ≡ projected o old
projected_over none kept = kept refl
projected_over (some snap) kept = refl

-- The text of an ID that parses.
update_of :
    (parse : ℕ → Option ℕ) (reaches : ℕ → Bool) (now text t : ℕ) (b : Balances) (db : Database)
    → parse text ≡ some t
    → update_quota_snapshots parse reaches now text b db ≡ upsert_all reaches t now 0 b db
unfolding update_quota_snapshots
update_of parse reaches now text t b db parsed =
    ap (λ o. for_tenant o (λ tenant. upsert_all reaches tenant now 0 b) db) parsed

-- Ranging over a map visits every key once.
abbrev pub IsRange : (Balances → Balances) → Type 0
IsRange order =
    (b : Balances)
    → IsUnique b
    → IsUnique (order b) × ((r : ResourceType) → lookup r (order b) ≡ lookup r b)

module _ (blake3 : List ℕ → List ℕ) (tb : TigerBeetle) (parse : ℕ → Option ℕ)
    (occasion : ℕ → Occasion) (ranges : (n : ℕ) → IsRange (occasion n).order) where
  abbrev system : Activities (World tb.Store)
  system = system_activities blake3 tb parse occasion

  -- UpdateQuotaSnapshots with its retries: if it succeeds, then for each resource what is stored for the
  -- tenant is the balance it was given, or for a resource without one what was stored before.
  pub update_quota_snapshots_stores :
      (text t : ℕ) (b : Balances) (w : World tb.Store) (r : ResourceType)
      → parse text ≡ some t
      → IsUnique b
      → (system.update_quota_snapshots text b w).0 ≡ true
      → let (success, w') = system.update_quota_snapshots text b w in
        stored t r w'.db ≡ projected (lookup r b) (stored t r w.db)
  unfolding system_activities
  update_quota_snapshots_stores text t b w r parsed u success =
      retry_leads occasion _ (λ s db. lookup r b ≡ none → stored t r db ≡ stored t r w.db)
        (λ s db. stored t r db ≡ projected (lookup r b) (stored t r w.db)) tt
        (λ n w1 kept absent.
          let o = occasion n in
          ap (λ (p : Bool × Database). stored t r p.1)
            (update_of parse o.reaches o.now text t (o.order b) w1.db parsed)
          ∙ upsert_all_leaves o.reaches t o.now (o.order b) 0 w1.db r ((ranges n b u).1 r ∙ absent)
          ∙ kept absent)
        (λ n w1 kept success1.
          let o = occasion n in
          let (unique, found) = ranges n b u in
          let same = update_of parse o.reaches o.now text t (o.order b) w1.db parsed in
          ap (λ (p : Bool × Database). stored t r p.1) same
          ∙ upsert_all_projects o.reaches t o.now (o.order b) 0 w1.db r unique
              (ap (λ (p : Bool × Database). p.0) (sym same) ∙ done-true _ tt success1)
          ∙ ap (λ balance. projected balance (stored t r w1.db)) (found r)
          ∙ projected_over (lookup r b) kept)
        maximum_attempts w (λ absent. refl) (succeeded-some _ success)

  -- LookupAccountBalances with its retries touches nothing, and what it returns are the balances.
  looked_up :
      (m : Map ResourceType ℕ) (w : World tb.Store) (b : Balances)
      → (system.lookup_account_balances m w).0 ≡ some b
      → let (r, w') = system.lookup_account_balances m w in
        (w'.store ≡ w.store) × (w'.db ≡ w.db) × (lookup_account_balances tb m w.store ≡ ok b)
  unfolding system_activities
  looked_up m w b success =
      retry_leads occasion _ (λ s db. (s ≡ w.store) × (db ≡ w.db))
        (λ s db. (s ≡ w.store) × (db ≡ w.db) × (lookup_account_balances tb m w.store ≡ ok b)) b
        (λ o w1 kept. kept)
        (λ o w1 (same_store, same_db) e. (
          same_store,
          same_db,
          value_ok _ b
              (subst (λ s. value_of (lookup_account_balances tb m s) ≡ some b) same_store e),
        ))
        maximum_attempts w (refl, refl) success

  -- CheckSoftLimits does not touch the snapshots.
  mark_all_snapshots :
      (reaches : ℕ → Bool) (t now i : ℕ) (b : Balances) (cs : List QuotaConfig) (db : Database)
      → (mark_all reaches t now i b cs db).1.quota_snapshots ≡ db.quota_snapshots
  unfolding mark_all mark_soft_limit_alert_sent
  mark_all_snapshots reaches t now i b [] db = refl
  mark_all_snapshots reaches t now i b (c ∷ rest) db =
      let marked =
        mark_all_snapshots reaches t now (i + 1) b rest
          (mark_soft_limit_alert_sent t c.resource_type db) in
      let skipped = mark_all_snapshots reaches t now i b rest db in
      elim (Bool-cases (crosses b c)) [
        | inr under ↦ rw under skipped
        | inl over ↦ elim (Bool-cases (reaches i)) [
          | inl through ↦ rw (over, through) marked
          | inr cut ↦ rw (over, cut) refl
        ]
      ]

  check_snapshots :
      (text : ℕ) (b : Balances) (w : World tb.Store)
      → let (success, w') = system.check_soft_limits text b w in
        (w'.store ≡ w.store) × (w'.db.quota_snapshots ≡ w.db.quota_snapshots)
  unfolding system_activities check_soft_limits check_all
  check_snapshots text b w =
      retry_keeps (λ s db. (s ≡ w.store) × (db.quota_snapshots ≡ w.db.quota_snapshots)) occasion _
        (λ o w1 (same_store, same_rows).
          (same_store, checked o.reaches o.now (parse text) w1.db ∙ same_rows))
        maximum_attempts w (refl, refl)
    where
      read :
          (reaches : ℕ → Bool) (now t : ℕ) (db : Database)
          → (check_all reaches t now b db).1.quota_snapshots ≡ db.quota_snapshots
      read reaches now t db = elim (Bool-cases (reaches 0)) [
        | inl through ↦
            rw through (mark_all_snapshots reaches t now 1 b (list_quota_configs_by_tenant t db) db)
        | inr cut ↦ rw cut refl
      ]

      checked :
          (reaches : ℕ → Bool) (now : ℕ) (o : Option ℕ) (db : Database)
          → (for_tenant o (λ tenant. check_all reaches tenant now b) db).1.quota_snapshots
            ≡ db.quota_snapshots
      checked reaches now none db = refl
      checked reaches now (some t) db = read reaches now t db

  update_store :
      (text : ℕ) (b : Balances) (w : World tb.Store)
      → (system.update_quota_snapshots text b w).1.store ≡ w.store
  unfolding system_activities
  update_store text b w =
      retry_keeps (λ s db. s ≡ w.store) occasion _ (λ o w1 same. same) maximum_attempts w refl

  -- The three activities of a projection whose balances were found.
  projected_world :
      (s : TenantAccountingState) (w : World tb.Store) (b : Balances)
      → (system.lookup_account_balances s.account_map w).0 ≡ some b
      → let w1 = (system.lookup_account_balances s.account_map w).1 in
        let w2 = (system.update_quota_snapshots s.tenant_id b w1).1 in
        project_balances blake3 system s w ≡ (system.check_soft_limits s.tenant_id b w2).1
  unfolding project_balances
  projected_world s w b found = rw (found, project_balances) refl

  -- If LookupAccountBalances and UpdateQuotaSnapshots succeed in the projection of a flush, where every attempt
  -- ranges over each key of a map once, then what is stored afterwards for each resource of the tenant is the
  -- balance that LookupAccountBalances would read afterwards, or what was stored before where it has none; and the
  -- projection changes nothing in TigerBeetle.
  pub projection_stores :
      (s : TenantAccountingState) (t : ℕ) (w : World tb.Store) (b : Balances) (r : ResourceType)
      → parse s.tenant_id ≡ some t
      → (system.lookup_account_balances s.account_map w).0 ≡ some b
      → (system.update_quota_snapshots s.tenant_id b
          (system.lookup_account_balances s.account_map w).1).0
        ≡ true
      → let w' = project_balances blake3 system s w in
        (w'.store ≡ w.store)
        × (lookup_account_balances tb s.account_map w'.store ≡ ok b)
        × (stored t r w'.db ≡ projected (lookup r b) (stored t r w.db))
  projection_stores s t w b r parsed found updated =
      let w1 = (system.lookup_account_balances s.account_map w).1 in
      let w2 = (system.update_quota_snapshots s.tenant_id b w1).1 in
      let (store1, db1, read) = looked_up s.account_map w b found in
      let u = balances-IsUnique tb s.account_map w.store b read in
      let rows = update_quota_snapshots_stores s.tenant_id t b w1 r parsed u updated in
      let (store3, rows3) = check_snapshots s.tenant_id b w2 in
      let same_store = store3 ∙ update_store s.tenant_id b w1 ∙ store1 in
      rw (projected_world s w b found) (
        same_store,
        ap (lookup_account_balances tb s.account_map) same_store ∙ read,
        ap (λ rows. Option.map snapshot_values (select_one (is_snapshot t r) rows)) rows3
            ∙ rows
            ∙ ap (λ db. projected (lookup r b) (stored t r db)) db1,
      )
