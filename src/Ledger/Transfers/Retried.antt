-- ===== src/Ledger/Transfers/Retried.antt =====
-- A call of submitBatch that is made again, as Temporal does when the completion of an activity is lost.
use cloud_credit_system.Common.{
  ℕ, suc, ◌+◌, ◌≤◌, ◌<◌, ◌≡◌, refl, sym, ap, subst, ◌∙◌, inl, inr, Bool, true, Option, none, some,
  List, [], ◌∷◌, arith, All, length, Option-cases, Result, ok, map,
}
use cloud_credit_system.Domain.Resource.{ResourceType}
use cloud_credit_system.Ledger.TigerBeetle.{
  Transfer, CreateTransferResult, TransferEventResult, TigerBeetle,
}
use cloud_credit_system.Ledger.TigerBeetle.Laws.{process, failures, Answers, TigerBeetleLaws}
use cloud_credit_system.Ledger.Transfers.{
  TransferResult, UsageTransfer, LedgerError, build, usage_transfer, submit_batch,
  submit_usage_batch,
}
use cloud_credit_system.Ledger.Transfers.Outcome.{
  failure_at, is_repeat, Reported, AllReported, submit_batch-AllReported,
}

-- What is documented of transfer IDs: `applied` tells whether a transfer with an ID was created. One that is
-- created is applied, one that is reported as existing was, an ID stays applied, and a further
-- transfer with an applied ID changes nothing.
pub record OnceLaws {S : Type 0} (create : Transfer → S → Option CreateTransferResult × S)
    (applied : ℕ → S → Bool) : Type 0 where
  pub created : (t : Transfer) (s : S) → (create t s).0 ≡ none → applied t.id (create t s).1 ≡ true
  pub existed :
      (t : Transfer) (s : S) (r : CreateTransferResult)
      → (create t s).0 ≡ some r
      → is_repeat r ≡ true
      → applied t.id s ≡ true
  pub stays_applied :
      (id : ℕ) (t : Transfer) (s : S) → applied id s ≡ true → applied id (create t s).1 ≡ true
  pub changes_nothing : (t : Transfer) (s : S) → applied t.id s ≡ true → (create t s).1 ≡ s

usage_transfer-id :
    (u : UsageTransfer) (t : Transfer) → usage_transfer u ≡ some t → t.id ≡ u.transfer_id
unfolding usage_transfer
usage_transfer-id u t e = ground (arith, e)

-- A list of usage that is built has a transfer with its ID for each.
build-cons :
    (u : UsageTransfer) (us : List UsageTransfer) (ts : List Transfer)
    → build usage_transfer (u ∷ us) ≡ some ts
    → (t : Transfer) × (rest : List Transfer) × (ts ≡ t ∷ rest)
      × (t.id ≡ u.transfer_id)
      × (build usage_transfer us ≡ some rest)
unfolding build
build-cons u us ts e = elim (Option-cases (usage_transfer u)) [
  | inl p ↦ absurd (ground (arith, p, e))
  | inr (t, p) ↦ elim (Option-cases (build usage_transfer us)) [
    | inl q ↦ absurd (ground (arith, p, q, e))
    | inr (rest, q) ↦ (t, rest, ground (arith, p, q, e), usage_transfer-id u t p, q)
  ]
]

length-built :
    (us : List UsageTransfer) (ts : List Transfer)
    → build usage_transfer us ≡ some ts
    → length (map (λ (u : UsageTransfer). u.resource) us) ≡ length ts
unfolding build
length-built [] ts e = ground (arith, e)
length-built (u ∷ us) ts e =
    let (t, rest, whole, id, q) = build-cons u us ts e in rw whole (ap suc (length-built us rest q))

module _ {S : Type 0} (create : Transfer → S → Option CreateTransferResult × S) where
  -- The events from index `j` say nothing of an index before it.
  failure_at-later :
      (k j : ℕ) (ts : List Transfer) (s : S) (before : Option CreateTransferResult)
      → k < j
      → failure_at k (failures create j ts s) before ≡ before
  failure_at-later k j [] s before h = refl
  failure_at-later k j (t ∷ ts) s before h =
      ground (arith, failure_at-later k (suc j) ts (create t s).1 before)

  failure_at-first :
      (j : ℕ) (t : Transfer) (ts : List Transfer) (s : S)
      → failure_at j (failures create j (t ∷ ts) s) none ≡ (create t s).0
  failure_at-first j t ts s = elim (Option-cases (create t s).0) [
    | inl e ↦ rw (e, failures) (failure_at-later j (suc j) ts (create t s).1 none (omega arith))
    | inr (r, e) ↦ ground (arith, e, failure_at-later j (suc j) ts (create t s).1 (some r))
  ]

  failure_at-rest :
      (k j : ℕ) (t : Transfer) (ts : List Transfer) (s : S)
      → j < k
      → failure_at k (failures create j (t ∷ ts) s) none
        ≡ failure_at k (failures create (suc j) ts (create t s).1) none
  failure_at-rest k j t ts s h = elim (Option-cases (create t s).0) [
    | inl e ↦ rw (e, failures) refl
    | inr (r, e) ↦ ground (arith, e)
  ]

-- A transfer with the ID of this usage was created.
abbrev pub IsCharged : {S : Type 0} → (ℕ → S → Bool) → S → UsageTransfer → Type 0
IsCharged applied s u = applied u.transfer_id s ≡ true

module _ {S : Type 0} (applied : ℕ → S → Bool) where
  IsCharged-of_built :
      (us : List UsageTransfer) (ts : List Transfer) (s : S)
      → build usage_transfer us ≡ some ts
      → All (λ (t : Transfer). applied t.id s ≡ true) ts
      → All (IsCharged applied s) us
  unfolding build
  IsCharged-of_built [] ts s e h = tt
  IsCharged-of_built (u ∷ us) ts s e h =
      let (t, rest, whole, id, q) = build-cons u us ts e in
      let (first, others) : All (λ (x : Transfer). applied x.id s ≡ true) (t ∷ rest) =
        subst (λ (l : List Transfer). All (λ (x : Transfer). applied x.id s ≡ true) l) whole h in
      (subst (λ (n : ℕ). applied n s ≡ true) id first, IsCharged-of_built us rest s q others)

  built-IsCharged :
      (us : List UsageTransfer) (ts : List Transfer) (s : S)
      → build usage_transfer us ≡ some ts
      → All (IsCharged applied s) us
      → All (λ (t : Transfer). applied t.id s ≡ true) ts
  unfolding build
  built-IsCharged [] ts s e h =
      let none_left : [] ≡ ts = ground (arith, e) in
      subst (λ (l : List Transfer). All (λ (x : Transfer). applied x.id s ≡ true) l) none_left tt
  built-IsCharged (u ∷ us) ts s e (first, others) =
      let (t, rest, whole, id, q) = build-cons u us ts e in
      rw whole
        (subst (λ (n : ℕ). applied n s ≡ true) (sym id) first, built-IsCharged us rest s q others)

-- Every result is accepted.
abbrev pub AllAccepted : List TransferResult → Type 0
AllAccepted out = All (λ (t : TransferResult). t.accepted ≡ true) out

module _ {S : Type 0} (create : Transfer → S → Option CreateTransferResult × S)
    (applied : ℕ → S → Bool) (once : OnceLaws create applied) where
  pub stays_through :
      (id : ℕ) (ts : List Transfer) (s : S)
      → applied id s ≡ true
      → applied id (process create ts s) ≡ true
  stays_through id [] s h = h
  stays_through id (t ∷ ts) s h = stays_through id ts (create t s).1 (once.stays_applied id t s h)

  accepted-applied :
      (t : Transfer) (s : S) (o : Option CreateTransferResult) (res : TransferResult)
      → (create t s).0 ≡ o
      → Reported o res
      → res.accepted ≡ true
      → applied t.id (create t s).1 ≡ true
  accepted-applied t s none res e rep acc = once.created t s e
  accepted-applied t s (some r) res e rep acc =
      once.stays_applied t.id t s (once.existed t s r e (sym rep.0 ∙ acc))

  pub AllReported-applied :
      (i : ℕ) (ts : List Transfer) (s : S) (resources : List ResourceType)
      (out : List TransferResult) (failure : ℕ → Option CreateTransferResult)
      → ((k : ℕ) → i ≤ k → failure k ≡ failure_at k (failures create i ts s) none)
      → length resources ≡ length ts
      → AllReported i failure resources out
      → AllAccepted out
      → All (λ (t : Transfer). applied t.id (process create ts s) ≡ true) ts
  AllReported-applied i [] s resources out failure same len rep acc = tt
  AllReported-applied i (t ∷ ts) s [] out failure same len rep acc = absurd (omega (arith, len))
  AllReported-applied i (t ∷ ts) s (r ∷ rs) out failure same len
        (res, results, e, resource, first, rest) acc =
      let (ok_first, ok_rest) : AllAccepted (res ∷ results) = subst AllAccepted e acc in
      let outcome = sym (failure_at-first create i t ts s) ∙ sym (same i (omega arith)) in
      (
        stays_through t.id ts (create t s).1
            (accepted-applied t s (failure i) res outcome first ok_first),
        AllReported-applied (i + 1) ts (create t s).1 rs results failure
            (λ k le.
              same k (omega arith)
              ∙ failure_at-rest create k i t ts s (omega arith)
              ∙ ap (λ (j : ℕ). failure_at k (failures create j ts (create t s).1) none)
                  (omega arith))
            (omega (arith, len)) rest ok_rest,
      )

  pub process-again :
      (ts : List Transfer) (s : S)
      → All (λ (t : Transfer). applied t.id s ≡ true) ts
      → process create ts s ≡ s
  process-again [] s h = refl
  process-again (t ∷ ts) s (first, rest) =
      let same = once.changes_nothing t s first in
      ap (λ (s' : S). process create ts s') same ∙ process-again ts s rest

  pub answer-again :
      (ts : List Transfer) (s : S) (answer : Option (List TransferEventResult) × S)
      → Answers create ts s answer
      → process create ts s ≡ s
      → answer.1 ≡ s
  answer-again ts s (some events, s') (e, e') same = e' ∙ same
  answer-again ts s (none, s') (inl e) same = e
  answer-again ts s (none, s') (inr e) same = e ∙ same

  pub answer-events :
      (ts : List Transfer) (s : S) (answer : Option (List TransferEventResult) × S)
      (events : List TransferEventResult)
      → Answers create ts s answer
      → answer.0 ≡ some events
      → (events ≡ failures create 0 ts s) × (answer.1 ≡ process create ts s)
  answer-events ts s (some events', s') events (e, e') said = (cc (e, said), e')
  answer-events ts s (none, s') events a said = absurd (cc said)

module _ (tb : TigerBeetle) (laws : TigerBeetleLaws tb) (applied : ℕ → tb.Store → Bool)
    (once : OnceLaws laws.create applied) where
  -- After a call whose results are all accepted, the IDs of all its transfers are applied.
  submit_batch-applied :
      (ts : List Transfer) (resources : List ResourceType) (s : tb.Store)
      (out : List TransferResult)
      → length resources ≡ length ts
      → (submit_batch tb ts resources s).0 ≡ ok out
      → AllAccepted out
      → All (λ (t : Transfer). applied t.id (submit_batch tb ts resources s).1 ≡ true) ts
  unfolding submit_batch
  submit_batch-applied ts resources s out len returned accepted =
      elim (Option-cases (tb.create_transfers ts s).0) [
        | inl failed ↦ absurd (ground (arith, failed, returned))
        | inr (events, answered) ↦
            let (events_are, store_is) =
              answer-events laws.create applied once ts s (tb.create_transfers ts s) events
                (laws.answers ts s) answered in
            rw store_is (
              AllReported-applied laws.create applied once 0 ts s resources out
                (λ i. failure_at i events none)
                (λ k le. ap (λ (es : List TransferEventResult). failure_at k es none) events_are)
                len (submit_batch-AllReported tb ts resources s events out answered returned)
                accepted)
      ]

  -- A call whose transfers all have applied IDs changes nothing, whether it is answered or not.
  submit_batch-again :
      (ts : List Transfer) (resources : List ResourceType) (s : tb.Store)
      → All (λ (t : Transfer). applied t.id s ≡ true) ts
      → (submit_batch tb ts resources s).1 ≡ s
  unfolding submit_batch
  submit_batch-again ts resources s all =
      answer-again laws.create applied once ts s (tb.create_transfers ts s) (laws.answers ts s)
        (process-again laws.create applied once ts s all)

  pub built_call :
      (ts : List UsageTransfer) (transfers : List Transfer)
      → build usage_transfer ts ≡ some transfers
      → (s : tb.Store)
      → submit_usage_batch tb ts s
        ≡ submit_batch tb transfers (map (λ (t : UsageTransfer). t.resource) ts) s
  unfolding submit_usage_batch
  built_call ts transfers built s = rw (built, submit_usage_batch) refl

  -- After a SubmitUsageBatch whose results are all accepted, all its usage is charged.
  pub submit_usage_batch-IsCharged :
      (us : List UsageTransfer) (s : tb.Store) (out : List TransferResult)
      → (submit_usage_batch tb us s).0 ≡ ok out
      → AllAccepted out
      → All (IsCharged applied (submit_usage_batch tb us s).1) us
  unfolding submit_usage_batch
  submit_usage_batch-IsCharged us s out returned accepted =
      elim (Option-cases (build usage_transfer us)) [
        | inl panic ↦ absurd (ground (arith, panic, returned))
        | inr (ts, built) ↦
            let call = built_call us ts built s in
            let resources = map (λ (t : UsageTransfer). t.resource) us in
            rw call (
              IsCharged-of_built applied us ts (submit_batch tb ts resources s).1 built (
                submit_batch-applied ts resources s out (length-built us ts built)
                  (subst (λ (r : Result LedgerError (List TransferResult) × tb.Store). r.0 ≡ ok out)
                    call returned)
                  accepted))
      ]

  -- A SubmitUsageBatch of usage that is all charged changes nothing, whether it is answered or not.
  pub submit_usage_batch-again :
      (us : List UsageTransfer) (s : tb.Store)
      → All (IsCharged applied s) us
      → (submit_usage_batch tb us s).1 ≡ s
  unfolding submit_usage_batch
  submit_usage_batch-again us s charged = elim (Option-cases (build usage_transfer us)) [
    | inl panic ↦ ground (arith, panic)
    | inr (ts, built) ↦ rw (built_call us ts built s) (
        submit_batch-again ts (map (λ (t : UsageTransfer). t.resource) us) s
          (built-IsCharged applied us ts s built charged))
  ]
