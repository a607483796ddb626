-- ===== src/System/Mapping.antt =====
-- InsertTBAccountMapping on the whole table: the account that is stored for a tenant and a resource.
use cloud_credit_system.Common.{
  ℕ, ◌+◌, ◌≡◌, refl, sym, ap, ◌∙◌, subst, ◌⊎◌, inl, inr, Bool, true, false, Option, none, some,
  List, [], ◌∷◌, arith, Bool-cases, Option-cases, guarded, if◌then◌else◌, ◌==◌,
}
use mathlib.Core.Option
use cloud_credit_system.Common.Maps.{Map, lookup}
use cloud_credit_system.Domain.Resource.{ResourceType, resource_key, resource_beq}
use cloud_credit_system.Domain.Codes.{tenant_quota}
use cloud_credit_system.Db.Table.{select_one, exists, insert_or_keep}
use cloud_credit_system.Db.Table.Laws.{select_one_found, select_one_appended, select_one_skips}
use cloud_credit_system.Db.Schema.{Tenant, TbAccountId, Database}
use cloud_credit_system.Db.Tenants.{is_tenant}
use cloud_credit_system.Db.Quota.{is_account, insert_tb_account_mapping}
use cloud_credit_system.Db.Integrity.{AccountsIntact}
use cloud_credit_system.System.Projection.{taken}
use cloud_credit_system.System.Provisioning.{send_mapping, map_all}

-- The wallet that is stored for a resource of a tenant.
abbrev pub mapped : ℕ → ResourceType → Database → Option ℕ
mapped t r db =
    Option.map (λ (a : TbAccountId). a.tb_account_id)
      (select_one (is_account t r tenant_quota) db.tb_account_ids)

-- DO NOTHING: what is there stays.
abbrev pub kept : Option ℕ → Option ℕ → Option ℕ
kept none new = new
kept (some a) new = some a

kept_none : (old : Option ℕ) → old ≡ kept old none
kept_none none = refl
kept_none (some a) = refl

pub select_one_absent :
    {R : Type 0} (p : R → Bool) (rs : List R) → exists p rs ≡ false → select_one p rs ≡ none
unfolding select_one exists
select_one_absent p [] h = refl
select_one_absent p (r ∷ rs) h = elim (Bool-cases (p r)) [
  | inl chosen ↦ absurd (ground (arith, h, chosen))
  | inr other ↦ ground (arith, other, select_one_absent p rs (ground (arith, h, other)))
]

-- A tenant that is not there has no wallet, by the foreign key.
pub unknown_unmapped :
    (ts : List Tenant) (rows : List TbAccountId) (t : ℕ) (r : ResourceType)
    → exists (is_tenant t) ts ≡ false
    → AccountsIntact ts rows
    → select_one (is_account t r tenant_quota) rows ≡ none
unfolding select_one
unknown_unmapped ts [] t r unknown h = refl
unknown_unmapped ts (a ∷ rows) t r unknown h = elim (Bool-cases (is_account t r tenant_quota a)) [
  | inl own ↦
      let owner : a.tenant_id ≡ t = ground (arith, own) in
      absurd (cc (subst (λ i. exists (is_tenant i) ts ≡ true) owner (h.1.0.1), unknown))
  | inr other ↦ rw other (unknown_unmapped ts rows t r unknown (h.0.1, h.1.1))
]

module _ (t : ℕ) (r : ResourceType) (account now : ℕ) (db : Database) where
  abbrev new_row : TbAccountId
  new_row = record {
    tenant_id = t;
    resource_type = r;
    account_type = tenant_quota;
    tb_account_id = account;
    created_at = now;
  }

  abbrev rows_after : List TbAccountId
  rows_after = insert_or_keep (is_account t r tenant_quota) new_row db.tb_account_ids

  stored_rows :
      (db' : Database)
      → insert_tb_account_mapping t r tenant_quota account now db ≡ some db'
      → (db'.tenants ≡ db.tenants) × (db'.tb_account_ids ≡ rows_after)
  unfolding insert_tb_account_mapping
  stored_rows db' success = (
    ap (λ (d : Database). d.tenants) (sym (taken _ _ db' success)),
    ap (λ (d : Database). d.tb_account_ids) (sym (taken _ _ db' success)),
  )

  own_key : is_account t r tenant_quota new_row ≡ true
  own_key = ground arith

  -- The row of the resource itself.
  same_row :
      Option.map
        (λ (a : TbAccountId). a.tb_account_id)
        (select_one (is_account t r tenant_quota) rows_after)
      ≡ kept (mapped t r db) (some account)
  same_row = elim (Bool-cases (exists (is_account t r tenant_quota) db.tb_account_ids)) [
    | inl there ↦
        let (row, found) = select_one_found (is_account t r tenant_quota) db.tb_account_ids there in
        rw (there, found) refl
    | inr absent ↦
        let none_yet = select_one_absent (is_account t r tenant_quota) db.tb_account_ids absent in
        rw
          (
            absent,
            select_one_appended (is_account t r tenant_quota) db.tb_account_ids new_row absent
                own_key,
            none_yet,
          )
          refl
  ]

  other_row :
      (q : ResourceType)
      → resource_beq r q ≡ false
      → select_one (is_account t q tenant_quota) rows_after
        ≡ select_one (is_account t q tenant_quota) db.tb_account_ids
  other_row q other = elim (Bool-cases (exists (is_account t r tenant_quota) db.tb_account_ids)) [
    | inl there ↦ rw there refl
    | inr absent ↦ rw absent (
        select_one_skips (is_account t q tenant_quota) db.tb_account_ids new_row
          (ground (arith, other)))
  ]

  -- A statement that gets through stores its account unless there is one, and leaves other resources.
  pub mapped-insert :
      (q : ResourceType) (db' : Database)
      → insert_tb_account_mapping t r tenant_quota account now db ≡ some db'
      → mapped t q db' ≡ (if r == q then kept (mapped t q db) (some account) else mapped t q db)
  mapped-insert q db' success =
      let rows = (stored_rows db' success).1 in
      elim (Bool-cases (resource_beq r q)) [
        | inl same ↦ rw (same, rows, ← (resource_key.same_iff r q).0 same) same_row
        | inr other ↦ rw (other, rows, other_row q other) refl
      ]

-- One account and then the rest.
two_kept :
    (own : Bool) (account : ℕ) (old middle later : Option ℕ)
    → middle ≡ (if own then kept old (some account) else old)
    → kept middle later ≡ kept old (if own then some account else later)
two_kept true account none middle later first = rw first refl
two_kept true account (some a) middle later first = rw first refl
two_kept false account old middle later first = rw first refl

-- A loop that was cut off may have done one account, or the first of them.
first_kept :
    (own : Bool) (account : ℕ) (old middle later : Option ℕ)
    → middle ≡ (if own then kept old (some account) else old)
    → (middle ≡ old) ⊎ (middle ≡ kept old (if own then some account else later))
first_kept true account old middle later first = inr first
first_kept false account old middle later first = inl first

either_kept :
    (own : Bool) (account : ℕ) (old middle after later : Option ℕ)
    → middle ≡ (if own then kept old (some account) else old)
    → (after ≡ middle) ⊎ (after ≡ kept middle later)
    → (after ≡ old) ⊎ (after ≡ kept old (if own then some account else later))
either_kept own account old middle after later first (inl same) =
    rw same (first_kept own account old middle later first)
either_kept own account old middle after later first (inr more) =
    inr (more ∙ two_kept own account old middle later first)

module _ (reaches : ℕ → Bool) (t now : ℕ) where
  -- However far the loop comes, it leaves the tenants, and for each resource either what was there or what
  -- the whole loop leaves; if it gets through, the latter.
  pub map_all-mapped :
      (m : Map ResourceType ℕ) (i : ℕ) (db : Database) (q : ResourceType)
      → let (success, db') = map_all reaches t now i m db in
        (db'.tenants ≡ db.tenants)
        × ((mapped t q db' ≡ mapped t q db) ⊎ (mapped t q db' ≡ kept (mapped t q db) (lookup q m)))
        × (success ≡ true → mapped t q db' ≡ kept (mapped t q db) (lookup q m))
  unfolding map_all
  map_all-mapped [] i db q = (refl, inl refl, λ e. kept_none (mapped t q db))
  map_all-mapped ((r, account) ∷ rest) i db q =
      elim (Option-cases (send_mapping reaches t now i r account db)) [
        | inl e ↦ rw e (refl, inl refl, λ e'. absurd (cc e'))
        | inr (db', e) ↦
            let sent =
              guarded (reaches i) (insert_tb_account_mapping t r tenant_quota account now db) db'
                e in
            let first = mapped-insert t r account now db q db' sent in
            let (tenants, anyhow, done) = map_all-mapped rest (i + 1) db' q in
            rw e (
              tenants ∙ (stored_rows t r account now db db' sent).0,
              either_kept (r == q) account (mapped t q db) (mapped t q db') _ (lookup q rest) first
                  anyhow,
              λ success.
                  done success
                  ∙ two_kept (r == q) account (mapped t q db) (mapped t q db') (lookup q rest)
                      first,
            )
      ]
