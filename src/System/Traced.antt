-- ===== src/System/Traced.antt =====
-- What a run of the accounting workflow does to PostgreSQL: a sequence of statements, which are about its
-- tenant only and are of three kinds.
use cloud_credit_system.Common.{
  ℕ, ◌+◌, ◌≡◌, refl, sym, ap, ◌∙◌, subst, inl, inr, Bool, Option, some, List, [], ◌∷◌, ◌++◌, All,
  All-append, Bool-cases, Option-cases,
}
use cloud_credit_system.Domain.Resource.{ResourceType}
use cloud_credit_system.Common.Int.{ℤ}
use cloud_credit_system.Accounting.Activities.{Balances}
use cloud_credit_system.Accounting.Workflow.State.{TenantAccountingState}
use cloud_credit_system.Accounting.Workflow.Loop.{Event, run_rounds}
use cloud_credit_system.Ledger.TigerBeetle.{TigerBeetle}
use cloud_credit_system.Db.Schema.{QuotaConfig, Database}
use cloud_credit_system.Db.Quota.{list_quota_configs_by_tenant, mark_soft_limit_alert_sent}
use cloud_credit_system.Db.Statement.{
  Statement, mark_alert, reset_alert, upsert_snapshot, execute, or_unchanged, execute_all,
}
use cloud_credit_system.System.Postgres.{
  for_tenant, crosses, upsert_all, mark_all, check_all, reset_one, update_quota_snapshots,
  check_soft_limits, reset_soft_limit_alert_activity,
}
use cloud_credit_system.System.World.{Occasion, World, system_activities}
use cloud_credit_system.System.Runs.{system_keeps}

-- The three kinds, for one tenant.
pub data IsAccounting (t : ℕ) : Statement → Type 0 where
  upserts :
      (r : ResourceType) (total posted pending : ℤ) (now : ℕ)
      → IsAccounting t (upsert_snapshot t r total posted pending now)
  marks : (r : ResourceType) → IsAccounting t (mark_alert t r)
  clears : (r : ResourceType) → IsAccounting t (reset_alert t r)

execute_all-append :
    (xs ys : List Statement) (db : Database)
    → execute_all (xs ++ ys) db ≡ execute_all ys (execute_all xs db)
unfolding execute_all
execute_all-append [] ys db = refl
execute_all-append (x ∷ xs) ys db = execute_all-append xs ys (or_unchanged db (execute x db))

-- The statements of tenant `t` that lead from one database to another.
pub record Traced (t : ℕ) (from to : Database) : Type 0 where
  pub statements : List Statement
  pub of_tenant : All (IsAccounting t) statements
  pub leads : to ≡ execute_all statements from

module _ (t : ℕ) (from : Database) where
  Traced-execute :
      (x : Statement) (db : Database)
      → IsAccounting t x
      → Traced t from db
      → Traced t from (or_unchanged db (execute x db))
  unfolding execute_all
  Traced-execute x db kind h = record {
    statements = h.statements ++ (x ∷ []);
    of_tenant = All-append (IsAccounting t) h.statements (x ∷ []) h.of_tenant (kind, tt);
    leads =
        ap (λ d. or_unchanged d (execute x d)) h.leads
        ∙ sym (execute_all-append h.statements (x ∷ []) from);
  }

  module _ (reaches : ℕ → Bool) (now : ℕ) where
    Traced-upsert_all :
        (i : ℕ) (b : Balances) (db : Database)
        → Traced t from db
        → Traced t from (upsert_all reaches t now i b db).1
    unfolding upsert_all execute
    Traced-upsert_all i [] db h = h
    Traced-upsert_all i ((r, snap) ∷ rest) db h =
        let x = upsert_snapshot t r snap.credits_total snap.debits_posted snap.debits_pending now in
        elim (Bool-cases (reaches i)) [
          | inr cut ↦ rw (cut, upsert_all) h
          | inl sent ↦ elim (Option-cases (execute x db)) [
            | inl refused ↦ rw (sent, upsert_all, refused) h
            | inr (db', e) ↦
                rw (sent, upsert_all, e)
                  (Traced-upsert_all (i + 1) rest db' (
                    subst (λ o. Traced t from (or_unchanged db o)) e
                      (Traced-execute x db (upserts r _ _ _ now) h)))
          ]
        ]

    Traced-mark_all :
        (i : ℕ) (b : Balances) (cs : List QuotaConfig) (db : Database)
        → Traced t from db
        → Traced t from (mark_all reaches t now i b cs db).1
    unfolding mark_all execute
    Traced-mark_all i b [] db h = h
    Traced-mark_all i b (c ∷ rest) db h =
        let marked =
          Traced-mark_all (i + 1) b rest (mark_soft_limit_alert_sent t c.resource_type db)
            (Traced-execute (mark_alert t c.resource_type) db (marks c.resource_type) h) in
        let skipped = Traced-mark_all i b rest db h in
        elim (Bool-cases (crosses b c)) [
          | inr under ↦ rw under skipped
          | inl over ↦ elim (Bool-cases (reaches i)) [
            | inl sent ↦ rw (over, sent) marked
            | inr cut ↦ rw (over, cut) h
          ]
        ]

    Traced-check_all :
        (b : Balances) (db : Database)
        → Traced t from db
        → Traced t from (check_all reaches t now b db).1
    unfolding check_all
    Traced-check_all b db h = elim (Bool-cases (reaches 0)) [
      | inl sent ↦ rw sent (Traced-mark_all 1 b (list_quota_configs_by_tenant t db) db h)
      | inr cut ↦ rw cut h
    ]

    Traced-reset_one :
        (r : ResourceType) (db : Database)
        → Traced t from db
        → Traced t from (reset_one reaches t now r db).1
    unfolding reset_one execute
    Traced-reset_one r db h = elim (Bool-cases (reaches 0)) [
      | inl sent ↦ rw sent (Traced-execute (reset_alert t r) db (clears r) h)
      | inr cut ↦ rw cut h
    ]

-- An ID that parses is handed on.
on_tenant :
    {o : Option ℕ} {t : ℕ} {from : Database} (f : ℕ → Database → Bool × Database) (db : Database)
    → o ≡ some t
    → Traced t from (f t db).1
    → Traced t from (for_tenant o f db).1
on_tenant {t = t} {from = from} f db parsed h =
    subst (λ o. Traced t from (for_tenant o f db).1) (sym parsed) h

-- Any run of the accounting workflow of a tenant, with any retries, leaves PostgreSQL as a sequence of
-- statements on this tenant does: upserts of its snapshots, and marks and resets of its alerts.
pub system-Traced :
    (blake3 : List ℕ → List ℕ) (tb : TigerBeetle) (parse : ℕ → Option ℕ) (occasion : ℕ → Occasion)
    (es : List Event) (s : TenantAccountingState) (w : World tb.Store) (t : ℕ)
    → parse s.tenant_id ≡ some t
    → let (s', w') = run_rounds blake3 (system_activities blake3 tb parse occasion) es s w in
      Traced t w.db w'.db
unfolding update_quota_snapshots check_soft_limits reset_soft_limit_alert_activity execute_all
system-Traced blake3 tb parse occasion es s w t parsed =
    system_keeps blake3 tb parse occasion (λ store db. Traced t w.db db) s.tenant_id
      (record {
        batches = λ random range i store db q. q;
        allocations = λ random i store db q. q;
        updates = λ reaches now b store db q.
            on_tenant (λ tenant. upsert_all reaches tenant now 0 b) db parsed
              (Traced-upsert_all t w.db reaches now 0 b db q);
        checks = λ reaches now b store db q.
            on_tenant (λ tenant. check_all reaches tenant now b) db parsed
              (Traced-check_all t w.db reaches now b db q);
        resets = λ reaches now r store db q.
            on_tenant (λ tenant. reset_one reaches tenant now r) db parsed
              (Traced-reset_one t w.db reaches now r db q);
      })
      es s w refl (record { statements = []; of_tenant = tt; leads = refl })
