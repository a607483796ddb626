-- ===== src/System/Inserted.antt =====
-- InsertTenant and its attempts: the row of a new tenant, or nothing.
use cloud_credit_system.Common.{
  ℕ, ◌≡◌, refl, sym, ap, ◌∙◌, subst, ◌⊎◌, inl, inr, Bool, true, false, none, [], ◌∷◌, ◌++◌, arith,
  Bool-cases,
}
use cloud_credit_system.Domain.Resource.{resource_key}
use cloud_credit_system.Db.Table.{exists}
use cloud_credit_system.Db.Table.Laws.{exists-append}
use cloud_credit_system.Db.Schema.{Tenant, Database, active, tier_allowed}
use cloud_credit_system.Db.Tenants.{is_tenant, insert_tenant}
use cloud_credit_system.System.Provisioning.{add_tenant}

module _ (t name tier : ℕ) where
  -- The row of a tenant that was inserted at a time.
  abbrev pub tenant_row : ℕ → Tenant
  tenant_row now = record {
    id = t;
    name = name;
    billing_tier = tier;
    status = active;
    created_at = now;
    deleted_at = none;
  }

  abbrev pub with_tenant : ℕ → Database → Database
  with_tenant now db = record db { tenants = db.tenants ++ (tenant_row now ∷ []) }

  abbrev pub is_known : Database → Bool
  is_known db = exists (is_tenant t) db.tenants

  -- An attempt of InsertTenant fails and changes nothing, or adds the row of a new tenant.
  pub add_tenant-cases :
      (reaches : ℕ → Bool) (now : ℕ) (db : Database)
      → let (success, db') = add_tenant reaches t now name tier db in
        ((success ≡ false) × (db' ≡ db))
        ⊎ ((is_known db ≡ false) × (at : ℕ) × (db' ≡ with_tenant at db))
  unfolding add_tenant insert_tenant
  add_tenant-cases reaches now db = elim (Bool-cases (reaches 0)) [
    | inr cut ↦ rw cut (inl (refl, refl))
    | inl through ↦ elim (Bool-cases (tier_allowed tier)) [
      | inr refused ↦ rw (through, refused) (inl (refl, refl))
      | inl allowed ↦ elim (Bool-cases (is_known db)) [
        | inl there ↦ rw (through, allowed, there) (inl (refl, refl))
        | inr absent ↦ rw (through, allowed, absent) (inr (refl, now, refl))
      ]
    ]
  ]

  -- Since the first attempt: nothing yet, or the tenant is there.
  abbrev pub Trying : Database → Database → Type 0
  Trying before db = (db ≡ before) ⊎ (is_known db ≡ true)

  abbrev pub Added : Database → Database → Type 0
  Added before db = (is_known before ≡ false) × (now : ℕ) × (db ≡ with_tenant now before)

  known_after : (now : ℕ) (db : Database) → is_known (with_tenant now db) ≡ true
  unfolding exists
  known_after now db = elim (Bool-cases (is_known db)) [
    | inl there ↦ exists-append (is_tenant t) db.tenants (tenant_row now ∷ []) ∙ rw there refl
    | inr new ↦ exists-append (is_tenant t) db.tenants (tenant_row now ∷ []) ∙ rw new (ground arith)
  ]

  pub attempt-Trying :
      (before db db' : Database) (success : Bool)
      → Trying before db
      → ((success ≡ false) × (db' ≡ db))
        ⊎ ((is_known db ≡ false) × (now : ℕ) × (db' ≡ with_tenant now db))
      → Trying before db' × (success ≡ true → Added before db')
  attempt-Trying before db db' success trying (inl (failed, same)) =
      (subst (Trying before) (sym same) trying, λ e. absurd (cc (e, failed)))
  attempt-Trying before db db' success (inl start) (inr (new, now, added)) = (
    inr (subst (λ d. is_known d ≡ true) (sym added) (known_after now db)),
    λ e. (subst (λ d. is_known d ≡ false) start new, now, added ∙ ap (with_tenant now) start),
  )
  attempt-Trying before db db' success (inr known) (inr (new, now, added)) =
      absurd (cc (known, new))
