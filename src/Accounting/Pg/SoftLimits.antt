-- ===== src/Accounting/Pg/SoftLimits.antt =====
-- When a soft limit raises an alert, and what the projection holds.
use cloud_credit_system.Common.{
  ℕ, ◌+◌, subst, not, ◌&&◌, ◌↔◌, ◌⊎◌, ◌≡◌, refl, inl, inr, Bool, true, false, Option, none, some,
  [], ◌∷◌, arith, if◌then◌else◌, ◌==◌, Bool-cases,
}
use cloud_credit_system.Common.Int.{ℤ, ◌≤ℤ◌, leb_ℤ, ◌+ℤ◌, wrap_i64}
use cloud_credit_system.Common.Maps.{lookup, insert, lookup-insert, IsUnique}
use cloud_credit_system.Domain.Resource.{ResourceType, resource_key}
use cloud_credit_system.Accounting.Signals.{QuotaSnapshotData}
use cloud_credit_system.Accounting.Activities.{Balances}
use cloud_credit_system.Accounting.Pg.{
  QuotaConfig, Configs, set_alert_sent, crosses, over_limit, check_from, check_soft_limits,
  upsert_from, update_quota_snapshots,
}

abbrev pub sent_as : Bool → Option QuotaConfig → Option QuotaConfig
sent_as sent none = none
sent_as sent (some cfg) = some (record cfg { soft_limit_alert_sent = sent })

lookup-set_alert_sent :
    (sent : Bool) (q r : ResourceType) (table : Configs)
    → lookup q (set_alert_sent sent r table)
      ≡ (if r == q then sent_as sent (lookup q table) else lookup q table)
unfolding set_alert_sent
lookup-set_alert_sent sent q r [] = ground arith
lookup-set_alert_sent sent q r ((k, cfg) ∷ rest) = ground (
  arith,
  lookup-set_alert_sent sent q r rest,
  resource_key.same_iff k r,
  resource_key.same_iff k q,
  resource_key.same_iff r q,
)

abbrev pub alerts : Balances → ResourceType → Option QuotaConfig → Bool
alerts snaps q none = false
alerts snaps q (some cfg) = crosses snaps q cfg

-- The flag after a check, given the flag, the limit and the balance before.
abbrev sent_with : QuotaConfig → Option QuotaSnapshotData → Bool
sent_with cfg snap =
    if not cfg.soft_limit_alert_sent && over_limit cfg.soft_limit snap
    then true
    else cfg.soft_limit_alert_sent

abbrev sent_after : Balances → ResourceType → QuotaConfig → Bool
sent_after snaps q cfg = sent_with cfg (lookup q snaps)

-- The resource has a limit and a balance, and the balance is at the limit.
abbrev AtLimit : Option ℤ → Option QuotaSnapshotData → Type 0
AtLimit l o =
    (limit : ℤ) × (snap : QuotaSnapshotData) × (l ≡ some limit)
    × (o ≡ some snap)
    × (limit ≤ℤ wrap_i64 (snap.debits_posted +ℤ snap.debits_pending))

leb_ℤ_iff : (a b : ℤ) → (leb_ℤ a b ≡ true) ↔ (a ≤ℤ b)
leb_ℤ_iff a b = ground arith

over_limit_iff :
    (l : Option ℤ) (o : Option QuotaSnapshotData) → (over_limit l o ≡ true) ↔ AtLimit l o
over_limit_iff none o = (λ e. absurd (cc e), λ (limit, snap, e, e', rest). absurd (cc e))
over_limit_iff (some l) none = (λ e. absurd (cc e), λ (limit, snap, e, e', rest). absurd (cc e'))
over_limit_iff (some l) (some snap) =
    let at = leb_ℤ_iff l (wrap_i64 (snap.debits_posted +ℤ snap.debits_pending)) in
    (λ e. (l, snap, refl, refl, at.0 e), λ (limit, snap', e, e', h). at.1 (subst2 e e' h))
  where
    subst2 :
        {limit : ℤ} {snap' : QuotaSnapshotData}
        → some l ≡ some limit
        → some snap ≡ some snap'
        → limit ≤ℤ wrap_i64 (snap'.debits_posted +ℤ snap'.debits_pending)
        → l ≤ℤ wrap_i64 (snap.debits_posted +ℤ snap.debits_pending)
    subst2 {limit} {snap'} e e' h =
        let same : limit ≡ l = cc e in
        let same' : snap' ≡ snap = cc e' in
        subst (λ (a : ℤ). a ≤ℤ wrap_i64 (snap.debits_posted +ℤ snap.debits_pending)) same
          (subst
            (λ (x : QuotaSnapshotData). limit ≤ℤ wrap_i64 (x.debits_posted +ℤ x.debits_pending))
            same' h)

sent_with_iff :
    (sent over : Bool)
    → ((if not sent && over then true else sent) ≡ true) ↔ ((sent ≡ true) ⊎ (over ≡ true))
sent_with_iff true over = (λ e. inl refl, λ h. ground arith)
sent_with_iff false true = (λ e. inr refl, λ h. refl)
sent_with_iff false false = (λ e. inl e, λ h. elim h [ inl e ↦ e | inr e ↦ e ])

sent_after_iff :
    (cfg : QuotaConfig) (o : Option QuotaSnapshotData)
    → (sent_with cfg o ≡ true) ↔ ((cfg.soft_limit_alert_sent ≡ true) ⊎ AtLimit cfg.soft_limit o)
sent_after_iff cfg o =
    let over = over_limit_iff cfg.soft_limit o in
    let both = sent_with_iff cfg.soft_limit_alert_sent (over_limit cfg.soft_limit o) in
    (
      λ e. elim (both.0 e) [ inl sent ↦ inl sent | inr reached ↦ inr (over.0 reached) ],
      λ h. both.1 (elim h [ inl sent ↦ inl sent | inr at ↦ inr (over.1 at) ]),
    )

module _ (reaches : ℕ → Bool) (all_reach : (i : ℕ) → reaches i ≡ true) where
  check_from-configs :
      (i : ℕ) (snaps : Balances) (cs table : Configs) (q : ResourceType)
      → IsUnique cs
      → let c = check_from reaches i snaps cs table in
        (c.success ≡ true)
        × (lookup q c.configs ≡ (
            if alerts snaps q (lookup q cs) then sent_as true (lookup q table) else lookup q table))
  unfolding check_from
  check_from-configs i snaps [] table q u = (refl, refl)
  check_from-configs i snaps ((k, cfg) ∷ rest) table q u = elim (Bool-cases (crosses snaps k cfg)) [
    | inl e ↦
        let (good, found) =
          check_from-configs (i + 1) snaps rest (set_alert_sent true k table) q u.1 in
        (
          ground (arith, e, all_reach i, good),
          ground (
            arith,
            e,
            all_reach i,
            found,
            u.0,
            lookup-set_alert_sent true q k table,
            resource_key.same_iff k q,
          ),
        )
    | inr e ↦
        let (good, found) = check_from-configs (i + 1) snaps rest table q u.1 in
        (ground (arith, e, good), ground (arith, e, found, u.0, resource_key.same_iff k q))
  ]

  -- CheckSoftLimits of a tenant whose table has one row for a resource, where PostgreSQL answers every
  -- statement: it succeeds, and of a row only the alert flag can change. The flag is set afterwards
  -- exactly if it was set before, or the row has a soft limit, the resource has a balance, and its
  -- posted and pending debits together, as an int64, are at the limit or above it.
  pub check_soft_limits_flags :
      (snaps : Balances) (table : Configs) (q : ResourceType) (cfg : QuotaConfig)
      → IsUnique table
      → lookup q table ≡ some cfg
      → let c = check_soft_limits reaches true true snaps table in
        (c.success ≡ true)
        × (sent : Bool) × (lookup q c.configs ≡ some (record cfg { soft_limit_alert_sent = sent }))
        × ((sent ≡ true) ↔ (
            (cfg.soft_limit_alert_sent ≡ true)
            ⊎ ((limit : ℤ) × (snap : QuotaSnapshotData) × (cfg.soft_limit ≡ some limit)
                × (lookup q snaps ≡ some snap)
                × (limit ≤ℤ wrap_i64 (snap.debits_posted +ℤ snap.debits_pending)))))
  unfolding check_soft_limits
  check_soft_limits_flags snaps table q cfg u row =
      let (good, found) = check_from-configs 0 snaps table table q u in
      (
        good,
        sent_after snaps q cfg,
        ground (arith, found, row),
        sent_after_iff cfg (lookup q snaps),
      )

  set_alert_sent-missing :
      (sent : Bool) (q r : ResourceType) (table : Configs)
      → lookup q table ≡ none
      → lookup q (set_alert_sent sent r table) ≡ none
  set_alert_sent-missing sent q r table h = ground (arith, h, lookup-set_alert_sent sent q r table)

  set_alert_sent-IsUnique :
      (sent : Bool) (r : ResourceType) (table : Configs)
      → IsUnique table
      → IsUnique (set_alert_sent sent r table)
  unfolding set_alert_sent
  set_alert_sent-IsUnique sent r [] u = tt
  set_alert_sent-IsUnique sent r ((k, cfg) ∷ rest) u =
      ground
        (arith, set_alert_sent-missing sent k r rest u.0, set_alert_sent-IsUnique sent r rest u.1)

  check_from-IsUnique :
      (i : ℕ) (snaps : Balances) (cs table : Configs)
      → IsUnique table
      → IsUnique (check_from reaches i snaps cs table).configs
  unfolding check_from
  check_from-IsUnique i snaps [] table u = u
  check_from-IsUnique i snaps ((k, cfg) ∷ rest) table u = elim (Bool-cases (crosses snaps k cfg)) [
    | inl e ↦
        let marked = set_alert_sent-IsUnique true k table u in
        rw (e, all_reach i)
          (check_from-IsUnique (i + 1) snaps rest (set_alert_sent true k table) marked)
    | inr e ↦ rw e (check_from-IsUnique (i + 1) snaps rest table u)
  ]

  -- Where no row crosses its limit, the loop warns of nothing.
  quiet :
      (i : ℕ) (snaps : Balances) (cs table : Configs)
      → IsUnique cs
      → ((q : ResourceType) → alerts snaps q (lookup q cs) ≡ false)
      → check_from reaches i snaps cs table
        ≡ record { success = true; warned = []; configs = table }
  unfolding check_from
  quiet i snaps [] table u h = refl
  quiet i snaps ((k, cfg) ∷ rest) table u h =
      let first : crosses snaps k cfg ≡ false = ground (arith, h k, resource_key.same_iff k k) in
      let others : (q : ResourceType) → alerts snaps q (lookup q rest) ≡ false =
        λ q. ground (arith, h q, u.0, resource_key.same_iff k q) in
      rw (first, quiet (i + 1) snaps rest table u.1 others) refl

  flagged_quiet :
      (snaps : Balances) (q : ResourceType) (cfg : Option QuotaConfig)
      → alerts snaps q (if alerts snaps q cfg then sent_as true cfg else cfg) ≡ false
  flagged_quiet snaps q none = refl
  flagged_quiet snaps q (some cfg) = ground arith

  -- A second check of the same balances warns of nothing and changes nothing: an alert is raised once.
  -- PostgreSQL answers, and the table has one row for a resource.
  pub alert_once :
      (snaps : Balances) (table : Configs)
      → IsUnique table
      → let configs = (check_soft_limits reaches true true snaps table).configs in
        check_soft_limits reaches true true snaps configs
        ≡ record { success = true; warned = []; configs = configs }
  unfolding check_soft_limits
  alert_once snaps table u =
      let c = check_from reaches 0 snaps table table in
      quiet 0 snaps c.configs c.configs (check_from-IsUnique 0 snaps table table u) (λ q.
        rw (check_from-configs 0 snaps table table q u).1 (flagged_quiet snaps q (lookup q table)))

  -- The first of two balances that is there.
  abbrev pub newer : Option QuotaSnapshotData → Option QuotaSnapshotData → Option QuotaSnapshotData
  newer none old = old
  newer (some new) old = some new

  upsert_from-rows :
      (i : ℕ) (snaps rows : Balances) (q : ResourceType)
      → IsUnique snaps
      → ((upsert_from reaches i snaps rows).0 ≡ true)
        × (lookup q (upsert_from reaches i snaps rows).1 ≡ newer (lookup q snaps) (lookup q rows))
  unfolding upsert_from
  upsert_from-rows i [] rows q u = (refl, refl)
  upsert_from-rows i ((r, snap) ∷ rest) rows q u =
      let (good, found) = upsert_from-rows (i + 1) rest (insert r snap rows) q u.1 in
      (
        ground (arith, all_reach i, good),
        ground (
          arith,
          all_reach i,
          found,
          u.0,
          lookup-insert r q snap rows,
          resource_key.same_iff r q,
        ),
      )

  -- UpdateQuotaSnapshots, when PostgreSQL answers, leaves for each resource the balance it was given,
  -- and the row as it was for a resource it was given none for. It is given one balance for a resource.
  pub update_quota_snapshots_projects :
      (snaps rows : Balances) (q : ResourceType)
      → IsUnique snaps
      → let (success, rows') = update_quota_snapshots reaches true snaps rows in
        (success ≡ true) × (lookup q rows' ≡ newer (lookup q snaps) (lookup q rows))
  unfolding update_quota_snapshots
  update_quota_snapshots_projects snaps rows q u = upsert_from-rows 0 snaps rows q u
