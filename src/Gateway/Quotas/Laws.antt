-- ===== src/Gateway/Quotas/Laws.antt =====
-- The handlers agree on the status of a quota, and commands follow the status.
use cloud_credit_system.Common.{
  ◌^◌, ◌-◌, ◌≡◌, ◌≢◌, ◌↔◌, ◌⊎◌, refl, inl, inr, Bool, true, false, none, some, List, [], ◌∷◌, arith,
  Bool-cases, All, ltb, if◌then◌else◌,
}
use cloud_credit_system.Common.Int.{ℤ, pos, negsuc, ◌-ℤ◌, ◌≤ℤ◌, wrap_i64-fits}
use cloud_credit_system.Common.Maps.{Map, lookup}
use cloud_credit_system.Domain.Resource.{ResourceType, resource_key}
use cloud_credit_system.Accounting.Signals.{QuotaSnapshotData}
use cloud_credit_system.Gateway.Quotas.{
  Status, unspecified, quota_exceeded, degraded, status_number, QuotaInfo, SnapshotRow, int64_of,
  flag, status_of, heartbeat_quota, listed_quota, issued_quota, heartbeat_quotas, worst_from, or_ok,
  overall_status, is_exceeded, build_pending_commands,
}

-- The row of `quota_snapshots` that holds a balance, with its generated column.
abbrev pub row_of : ResourceType → QuotaSnapshotData → SnapshotRow
row_of r snap = record {
  resource_type = r;
  credits_total = snap.credits_total;
  debits_posted = snap.debits_posted;
  debits_pending = snap.debits_pending;
  available = some (snap.credits_total -ℤ snap.debits_posted -ℤ snap.debits_pending);
}

module _ (ratio_ge_80 : ℤ → ℤ → Bool) where
  -- For one balance whose available amount fits an int64, IssueTenantCredit (from the live balance) and ListTenantQuotas (from the row that
  -- holds it) report the same quota; the heartbeat stream reports it too unless the workflow has
  -- flagged the resource as exceeded, and then it differs in the status alone, which is QUOTA_EXCEEDED.
  pub quotas_agree :
      (r : ResourceType) (snap : QuotaSnapshotData) (exceeded : Map ResourceType Bool)
      → negsuc (2 ^ 63 - 1) ≤ℤ snap.credits_total -ℤ snap.debits_posted -ℤ snap.debits_pending
      → snap.credits_total -ℤ snap.debits_posted -ℤ snap.debits_pending ≤ℤ pos (2 ^ 63 - 1)
      → (issued_quota ratio_ge_80 r snap ≡ listed_quota ratio_ge_80 (row_of r snap))
        × (heartbeat_quota ratio_ge_80 exceeded (row_of r snap) ≡ (
            if flag (lookup r exceeded)
            then record (listed_quota ratio_ge_80 (row_of r snap)) { status = quota_exceeded }
            else listed_quota ratio_ge_80 (row_of r snap)))
  unfolding issued_quota listed_quota heartbeat_quota status_of
  quotas_agree r snap exceeded low high =
      let v = snap.credits_total -ℤ snap.debits_posted -ℤ snap.debits_pending in
      (rw (wrap_i64-fits v low high) refl, ground arith)

  -- The heartbeat stream reports QUOTA_EXCEEDED exactly when the row has no balance, or a balance of
  -- zero or less, or the workflow has flagged the resource.
  pub heartbeat_quota_exceeded :
      (exceeded : Map ResourceType Bool) (s : SnapshotRow)
      → ((heartbeat_quota ratio_ge_80 exceeded s).status ≡ quota_exceeded) ↔ (
          (s.available ≡ none)
          ⊎ (int64_of s.available ≤ℤ pos 0)
          ⊎ (flag (lookup s.resource_type exceeded) ≡ true))
  unfolding heartbeat_quota status_of
  heartbeat_quota_exceeded exceeded s = ground arith

  status_of-ne-degraded :
      (b : Bool) (used total : ℤ) → status_of ratio_ge_80 b used total ≢ degraded
  unfolding status_of
  status_of-ne-degraded b used total h = ground arith

-- From a worst status that is exceeded nothing that is not degraded leads away.
worst_stays :
    (qs : List QuotaInfo)
    → All (λ (q : QuotaInfo). q.status ≢ degraded) qs
    → worst_from quota_exceeded qs ≡ quota_exceeded
unfolding worst_from
worst_stays [] h = refl
worst_stays (q ∷ qs) h = ground (arith, worst_stays qs h.1, h.0)

abbrev worse : Status → Status → Status
worse w t = if ltb (status_number w) (status_number t) then t else w

worse_exceeded : (w t : Status) → w ≢ degraded → is_exceeded t ≡ true → worse w t ≡ quota_exceeded
worse_exceeded w t b e = ground arith

worse_mild :
    (w t : Status)
    → is_exceeded w ≡ false
    → w ≢ degraded
    → is_exceeded t ≡ false
    → t ≢ degraded
    → (is_exceeded (worse w t) ≡ false) × (worse w t ≢ degraded)
worse_mild w t a b e d = ground arith

mild_ne : (w : Status) → is_exceeded w ≡ false → w ≢ quota_exceeded
mild_ne w a e = ground arith

-- The worst status is QUOTA_EXCEEDED exactly when there is a command.
worst_iff :
    (w : Status) (qs : List QuotaInfo)
    → All (λ (q : QuotaInfo). q.status ≢ degraded) qs
    → is_exceeded w ≡ false
    → w ≢ degraded
    → (worst_from w qs ≡ quota_exceeded) ↔ (build_pending_commands qs ≢ [])
unfolding worst_from build_pending_commands
worst_iff w [] h a b = (λ e. absurd (mild_ne w a e), λ n. absurd (n refl))
worst_iff w (q ∷ qs) h a b = elim (Bool-cases (is_exceeded q.status)) [
  | inl e ↦
      (λ _. rw e (λ none_left. cc), λ _. rw (worse_exceeded w q.status b e) (worst_stays qs h.1))
  | inr e ↦
      let (a', b') = worse_mild w q.status a b e h.0 in
      rw e (worst_iff (worse w q.status) qs h.1 a' b')
]

or_ok_exceeded : (s : Status) → (or_ok s ≡ quota_exceeded) ↔ (s ≡ quota_exceeded)
or_ok_exceeded s = ground arith

module _ (ratio_ge_80 : ℤ → ℤ → Bool) where
  none_degraded :
      (exceeded : Map ResourceType Bool) (rows : List SnapshotRow)
      → All (λ (q : QuotaInfo). q.status ≢ degraded) (heartbeat_quotas ratio_ge_80 exceeded rows)
  unfolding heartbeat_quotas heartbeat_quota
  none_degraded exceeded [] = tt
  none_degraded exceeded (s ∷ rows) =
      (status_of-ne-degraded ratio_ge_80 _ _ _, none_degraded exceeded rows)

  -- A heartbeat response has the overall status QUOTA_EXCEEDED exactly when it carries a shutdown
  -- command.
  pub overall_status_iff_commands :
      (exceeded : Map ResourceType Bool) (rows : List SnapshotRow)
      → let quotas = heartbeat_quotas ratio_ge_80 exceeded rows in
        (overall_status quotas ≡ quota_exceeded) ↔ (build_pending_commands quotas ≢ [])
  unfolding overall_status
  overall_status_iff_commands exceeded rows =
      let quotas = heartbeat_quotas ratio_ge_80 exceeded rows in
      let worst = worst_iff unspecified quotas (none_degraded exceeded rows) refl (λ e. cc) in
      let back = or_ok_exceeded (worst_from unspecified quotas) in
      (λ e. worst.0 (back.0 e), λ n. back.1 (worst.1 n))
