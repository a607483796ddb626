-- ===== src/System/Consequences.antt =====
-- What follows from the statements of a run: the constraints stay, and other tenants are left alone.
use cloud_credit_system.Common.{
  ℕ, ◌≡◌, ◌≢◌, refl, sym, ap, ◌∙◌, subst, false, Option, some, List, [], ◌∷◌, All, nat_beq, arith,
}
use cloud_credit_system.Accounting.Workflow.State.{TenantAccountingState}
use cloud_credit_system.Accounting.Workflow.Loop.{Event, run_rounds}
use cloud_credit_system.Ledger.TigerBeetle.{TigerBeetle}
use cloud_credit_system.Db.Schema.{Database}
use cloud_credit_system.Db.Statement.{Statement, execute, or_unchanged, execute_all}
use cloud_credit_system.Db.Integrity.{IsIntact}
use cloud_credit_system.Db.Integrity.Kept.{execute_all-IsIntact}
use cloud_credit_system.Db.Isolation.{view, concerns}
use cloud_credit_system.Db.Isolation.Apart.{tenants_isolated}
use cloud_credit_system.System.World.{Occasion, World, system_activities}
use cloud_credit_system.System.Traced.{IsAccounting, upserts, marks, clears, Traced, system-Traced}

module _ (t : ℕ) where
  isolated_by_statements :
      (u : ℕ) (xs : List Statement) (db : Database)
      → nat_beq t u ≡ false
      → All (IsAccounting t) xs
      → view u (execute_all xs db) ≡ view u db
  unfolding execute_all concerns
  isolated_by_statements u [] db other kinds = refl
  isolated_by_statements u (x ∷ xs) db other (kind, kinds) =
      isolated_by_statements u xs (or_unchanged db (execute x db)) other kinds
      ∙ tenants_isolated u db x (unconcerned x kind)
    where
      unconcerned : (x : Statement) → IsAccounting t x → concerns u db x ≡ false
      unconcerned x (upserts r total posted pending now) = other
      unconcerned x (marks r) = other
      unconcerned x (clears r) = other

module _ (blake3 : List ℕ → List ℕ) (tb : TigerBeetle) (parse : ℕ → Option ℕ)
    (occasion : ℕ → Occasion) (es : List Event) (s : TenantAccountingState) (w : World tb.Store)
    (t : ℕ) (parsed : parse s.tenant_id ≡ some t) where
  abbrev after : Database
  after = (run_rounds blake3 (system_activities blake3 tb parse occasion) es s w).1.db

  traced : Traced t w.db after
  traced = system-Traced blake3 tb parse occasion es s w t parsed

  -- No run of a tenant's workflow changes what any query answers about another tenant.
  pub system_isolated : (u : ℕ) → t ≢ u → view u after ≡ view u w.db
  system_isolated u other =
      ap (view u) traced.leads
      ∙ isolated_by_statements t u traced.statements w.db (ground (arith, other)) traced.of_tenant

  -- A run keeps every constraint of the schema.
  pub system-IsIntact : IsIntact w.db → IsIntact after
  system-IsIntact h =
      subst IsIntact (sym traced.leads) (execute_all-IsIntact traced.statements w.db h)
