-- ===== src/System/Projection.antt =====
-- UpdateQuotaSnapshots on the whole table, with retries: if it succeeds, the rows of the tenant are the
-- balances it was given.
use cloud_credit_system.Common.{
  ℕ, ◌+◌, ◌≡◌, refl, sym, ap, ◌∙◌, subst, inl, inr, Bool, true, false, Option, none, some, List, [],
  ◌∷◌, arith, Bool-cases, Option-cases, guarded, if◌then◌else◌, ◌==◌,
}
use mathlib.Core.Option
use cloud_credit_system.Common.Maps.{lookup, IsUnique}
use cloud_credit_system.Domain.Resource.{ResourceType, resource_key, resource_beq}
use cloud_credit_system.Accounting.Signals.{QuotaSnapshotData}
use cloud_credit_system.Accounting.Activities.{Balances}
use cloud_credit_system.Db.Table.{select_one, exists, insert_or_update}
use cloud_credit_system.Db.Table.Laws.{
  select_one-update_where, select_one-updated, select_one_found, select_one_appended,
  select_one_skips,
}
use cloud_credit_system.Db.Schema.{QuotaSnapshot, Database}
use cloud_credit_system.Db.Quota.{is_snapshot, upsert_quota_snapshot}
use cloud_credit_system.System.Postgres.{and_then, send_upsert, upsert_all}

abbrev pub snapshot_values : QuotaSnapshot → QuotaSnapshotData
snapshot_values s = record {
  credits_total = s.credits_total;
  debits_posted = s.debits_posted;
  debits_pending = s.debits_pending;
}

-- The balance that is stored for a tenant and a resource.
abbrev pub stored : ℕ → ResourceType → Database → Option QuotaSnapshotData
stored t r db = Option.map snapshot_values (select_one (is_snapshot t r) db.quota_snapshots)

pub taken : {A : Type 0} (b : Bool) (x y : A) → (if b then some x else none) ≡ some y → x ≡ y
taken true x y e = ground (arith, e)
taken false x y e = absurd (cc e)

module _ (t : ℕ) (r : ResourceType) (snap : QuotaSnapshotData) (now : ℕ) (db : Database) where
  abbrev new_row : QuotaSnapshot
  new_row = record {
    tenant_id = t;
    resource_type = r;
    credits_total = snap.credits_total;
    debits_posted = snap.debits_posted;
    debits_pending = snap.debits_pending;
    snapshot_at = now;
  }

  abbrev new_values : QuotaSnapshot → QuotaSnapshot
  new_values s = record s {
    credits_total = snap.credits_total;
    debits_posted = snap.debits_posted;
    debits_pending = snap.debits_pending;
    snapshot_at = now;
  }

  abbrev upserted : Option Database
  upserted =
      upsert_quota_snapshot t r snap.credits_total snap.debits_posted snap.debits_pending now db

  abbrev rows_after : List QuotaSnapshot
  rows_after = insert_or_update (is_snapshot t r) new_row new_values db.quota_snapshots

  own_key : is_snapshot t r new_row ≡ true
  own_key = ground arith

  -- The row of the resource itself.
  same_row : Option.map snapshot_values (select_one (is_snapshot t r) rows_after) ≡ some snap
  same_row = elim (Bool-cases (exists (is_snapshot t r) db.quota_snapshots)) [
    | inl there ↦
        let (row, found) = select_one_found (is_snapshot t r) db.quota_snapshots there in
        let changed =
          select_one-updated (is_snapshot t r) new_values db.quota_snapshots (λ s. refl) in
        rw (there, changed, found) refl
    | inr absent ↦
        rw (absent, select_one_appended (is_snapshot t r) db.quota_snapshots new_row absent own_key)
          refl
  ]

  other_row :
      (q : ResourceType)
      → resource_beq r q ≡ false
      → select_one (is_snapshot t q) rows_after ≡ select_one (is_snapshot t q) db.quota_snapshots
  other_row q other = elim (Bool-cases (exists (is_snapshot t r) db.quota_snapshots)) [
    | inl there ↦ rw there (
        select_one-update_where (is_snapshot t q) (is_snapshot t r) new_values db.quota_snapshots
          (λ s same. ground (arith, same, other)) (λ s same. ground (arith, same, other)))
    | inr absent ↦
        rw absent
          (select_one_skips (is_snapshot t q) db.quota_snapshots new_row (ground (arith, other)))
  ]

  rows_of_success : (db' : Database) → upserted ≡ some db' → db'.quota_snapshots ≡ rows_after
  unfolding upsert_quota_snapshot
  rows_of_success db' success =
      ap (λ (d : Database). d.quota_snapshots) (sym (taken _ _ db' success))

  -- An upsert that succeeds stores its values, and leaves the other resources.
  pub stored-upsert :
      (q : ResourceType) (db' : Database)
      → upserted ≡ some db'
      → stored t q db' ≡ (if r == q then some snap else stored t q db)
  stored-upsert q db' success =
      let rows = rows_of_success db' success in
      elim (Bool-cases (resource_beq r q)) [
        | inl same ↦ rw (same, rows, ← (resource_key.same_iff r q).0 same) same_row
        | inr other ↦ rw (other, rows, other_row q other) refl
      ]

-- The given balance of a resource, and else what was stored.
abbrev pub projected :
    Option QuotaSnapshotData → Option QuotaSnapshotData → Option QuotaSnapshotData
projected none old = old
projected (some snap) old = some snap

-- One balance and then the rest, which has none of the same resource.
one_more :
    (r q : ResourceType) (snap : QuotaSnapshotData) (later old middle : Option QuotaSnapshotData)
    → middle ≡ (if r == q then some snap else old)
    → (q ≡ r → later ≡ none)
    → projected later middle ≡ projected (if r == q then some snap else later) old
one_more r q snap later old middle first unique = elim (Bool-cases (resource_beq r q)) [
  | inl same ↦ rw (same, first, unique (sym ((resource_key.same_iff r q).0 same)), same) refl
  | inr other ↦ rw (other, first, other) refl
]

module _ (reaches : ℕ → Bool) (t now : ℕ) where
  sent_upserted :
      (i : ℕ) (r : ResourceType) (snap : QuotaSnapshotData) (db db' : Database)
      → send_upsert reaches t now i r snap db ≡ some db'
      → upserted t r snap now db ≡ some db'
  sent_upserted i r snap db db' e = guarded (reaches i) (upserted t r snap now db) db' e

  -- A loop that gets through stores every balance.
  pub upsert_all_projects :
      (b : Balances) (i : ℕ) (db : Database) (q : ResourceType)
      → IsUnique b
      → (upsert_all reaches t now i b db).0 ≡ true
      → stored t q (upsert_all reaches t now i b db).1 ≡ projected (lookup q b) (stored t q db)
  unfolding upsert_all
  upsert_all_projects [] i db q u success = refl
  upsert_all_projects ((r, snap) ∷ rest) i db q (new, u) success =
      elim (Option-cases (send_upsert reaches t now i r snap db)) [
        | inl e ↦ absurd (
            cc (
              subst (λ o. (and_then o db (upsert_all reaches t now (i + 1) rest)).0 ≡ true) e
                success))
        | inr (db', e) ↦
            let first = stored-upsert t r snap now db q db' (sent_upserted i r snap db db' e) in
            let later = upsert_all_projects rest (i + 1) db' q u (
              subst (λ o. (and_then o db (upsert_all reaches t now (i + 1) rest)).0 ≡ true) e
                success) in
            let goes_on =
              ap (λ o. stored t q (and_then o db (upsert_all reaches t now (i + 1) rest)).1) e in
            goes_on
            ∙ later
            ∙ one_more r q snap (lookup q rest) (stored t q db) (stored t q db') first
                (λ e. ap (λ k. lookup k rest) e ∙ new)
      ]

  -- However far it gets, it leaves the resources that it was given no balance of.
  pub upsert_all_leaves :
      (b : Balances) (i : ℕ) (db : Database) (q : ResourceType)
      → lookup q b ≡ none
      → stored t q (upsert_all reaches t now i b db).1 ≡ stored t q db
  unfolding upsert_all
  upsert_all_leaves [] i db q absent = refl
  upsert_all_leaves ((r, snap) ∷ rest) i db q absent =
      elim (Option-cases (send_upsert reaches t now i r snap db)) [
        | inl e ↦ ap (λ o. stored t q (and_then o db (upsert_all reaches t now (i + 1) rest)).1) e
        | inr (db', e) ↦
            let first = stored-upsert t r snap now db q db' (sent_upserted i r snap db db' e) in
            let later = upsert_all_leaves rest (i + 1) db' q (ground (arith, absent)) in
            let goes_on =
              ap (λ o. stored t q (and_then o db (upsert_all reaches t now (i + 1) rest)).1) e in
            goes_on ∙ later ∙ ground (arith, first, absent)
      ]
