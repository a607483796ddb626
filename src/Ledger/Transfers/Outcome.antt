-- ===== src/Ledger/Transfers/Outcome.antt =====
-- What submitBatch reports of each transfer.
use cloud_credit_system.Common.{
  ℕ, ◌+◌, ◌≡◌, ◌⊎◌, refl, sym, subst, Bool, true, false, Option, none, some, List, [], ◌∷◌, arith,
  nat_key, nat_beq, ok, ◌>>=◌, then-ok, if◌then◌else◌,
}
use cloud_credit_system.Common.Maps.{Map, lookup, insert, lookup-insert}
use cloud_credit_system.Domain.Resource.{ResourceType}
use cloud_credit_system.Ledger.TigerBeetle.{
  Transfer, CreateTransferResult, exceeds_credits, exists, exists_with_different_debit_account_id,
  exists_with_different_credit_account_id, exists_with_different_amount, TransferEventResult,
  TigerBeetle, pending_transfer_not_found, pending_transfer_already_voided,
  pending_transfer_already_posted, other_result,
}
use cloud_credit_system.Ledger.Transfers.{
  TransferResult, mark_failed, classify, classify_from, submit_batch,
}

-- The last failure that the results hold for an index.
abbrev pub failure_at :
    ℕ → List TransferEventResult → Option CreateTransferResult → Option CreateTransferResult
failure_at i [] before = before
failure_at i (r ∷ rs) before = failure_at i rs (if nat_beq r.index i then some r.result else before)

lookup-mark_failed :
    (i : ℕ) (rs : List TransferEventResult) (failed : Map ℕ CreateTransferResult)
    → lookup i (mark_failed rs failed) ≡ failure_at i rs (lookup i failed)
unfolding mark_failed
lookup-mark_failed i [] failed = refl
lookup-mark_failed i (r ∷ rs) failed =
    rw
      (
        lookup-mark_failed i rs (insert r.index r.result failed),
        lookup-insert r.index i r.result failed,
      )
      refl

-- The transfer exists already, perhaps with other fields that an earlier attempt gave it.
abbrev pub is_repeat : CreateTransferResult → Bool
is_repeat exists = true
is_repeat exists_with_different_debit_account_id = true
is_repeat exists_with_different_credit_account_id = true
is_repeat exists_with_different_amount = true
is_repeat r = false

-- What is reported of a transfer: accepted if it did not fail or is a repeat, and if it is neither it
-- exceeds the credits.
abbrev pub Reported : Option CreateTransferResult → TransferResult → Type 0
Reported none t = (t.accepted ≡ true) × (t.exists ≡ false) × (t.exceeds_credits ≡ false)
Reported (some r) t =
    (t.accepted ≡ is_repeat r)
    × (t.exists ≡ is_repeat r)
    × (((t.exceeds_credits ≡ true) × (r ≡ exceeds_credits))
        ⊎ ((t.exceeds_credits ≡ false) × (is_repeat r ≡ true)))

classify-Reported :
    (i : ℕ) (r : ResourceType) (f : Option CreateTransferResult) (t : TransferResult)
    → classify i r f ≡ ok t
    → (t.resource ≡ r) × Reported f t
unfolding classify
classify-Reported i r f t h = ground (arith, h)

-- The report at each place of a list of resources, from index `i`.
abbrev pub AllReported :
    ℕ → (ℕ → Option CreateTransferResult) → List ResourceType → List TransferResult → Type 0
AllReported i failure [] out = out ≡ []
AllReported i failure (r ∷ rs) out =
    (t : TransferResult) × (ts : List TransferResult) × (out ≡ t ∷ ts)
    × (t.resource ≡ r)
    × Reported (failure i) t
    × AllReported (i + 1) failure rs ts

classify_from-AllReported :
    (i : ℕ) (failed : Map ℕ CreateTransferResult) (rs : List ResourceType)
    (out : List TransferResult)
    → classify_from i failed rs ≡ ok out
    → AllReported i (λ k. lookup k failed) rs out
unfolding classify_from
classify_from-AllReported i failed [] out h = ground (arith, h)
classify_from-AllReported i failed (r ∷ rs) out h =
    let (t, e, h1) =
      then-ok (classify i r (lookup i failed))
        (λ first. classify_from (i + 1) failed rs >>= (λ rest. ok (first ∷ rest))) out h in
    let (ts, e', h2) = then-ok (classify_from (i + 1) failed rs) (λ rest. ok (t ∷ rest)) out h1 in
    let (res, rep) = classify-Reported i r (lookup i failed) t e in
    (t, ts, ground (arith, h2), res, rep, classify_from-AllReported (i + 1) failed rs ts e')

AllReported-map :
    (i : ℕ) (f g : ℕ → Option CreateTransferResult) (rs : List ResourceType)
    (out : List TransferResult)
    → ((k : ℕ) → f k ≡ g k)
    → AllReported i f rs out
    → AllReported i g rs out
AllReported-map i f g [] out same h = h
AllReported-map i f g (r ∷ rs) out same (t, ts, e, res, rep, rest) = (
  t,
  ts,
  e,
  res,
  subst (λ o. Reported o t) (same i) rep,
  AllReported-map (i + 1) f g rs ts same rest,
)

-- If submitBatch returns results, there is one for each resource, in order: it is accepted exactly if
-- TigerBeetle reported no failure at that index or that the transfer exists already, and otherwise it
-- is reported as exceeding the credits, which is then what TigerBeetle said.
pub submit_batch-AllReported :
    (tb : TigerBeetle) (ts : List Transfer) (resources : List ResourceType) (s : tb.Store)
    (events : List TransferEventResult) (out : List TransferResult)
    → (tb.create_transfers ts s).0 ≡ some events
    → (submit_batch tb ts resources s).0 ≡ ok out
    → AllReported 0 (λ i. failure_at i events none) resources out
unfolding submit_batch
submit_batch-AllReported tb ts resources s events out answered h =
    let classified : classify_from 0 (mark_failed events []) resources ≡ ok out =
      ground (arith, answered, h) in
    AllReported-map 0 _ _ resources out (λ i. lookup-mark_failed i events [])
      (classify_from-AllReported 0 (mark_failed events []) resources out classified)

-- The failures that submitBatch expects.
abbrev pub Expected : Option CreateTransferResult → Type 0
Expected none = Unit
Expected (some r) = (is_repeat r ≡ true) ⊎ (r ≡ exceeds_credits)

classify-total :
    (i : ℕ) (r : ResourceType) (f : Option CreateTransferResult)
    → Expected f
    → (t : TransferResult) × (classify i r f ≡ ok t)
unfolding classify
classify-total i r none h = (_, refl)
classify-total i r (some exceeds_credits) h = (_, refl)
classify-total i r (some exists) h = (_, refl)
classify-total i r (some exists_with_different_debit_account_id) h = (_, refl)
classify-total i r (some exists_with_different_credit_account_id) h = (_, refl)
classify-total i r (some exists_with_different_amount) h = (_, refl)
classify-total i r (some pending_transfer_not_found) h = absurd (ground (arith, h))
classify-total i r (some pending_transfer_already_voided) h = absurd (ground (arith, h))
classify-total i r (some pending_transfer_already_posted) h = absurd (ground (arith, h))
classify-total i r (some (other_result n)) h = absurd (ground (arith, h))

classify_from-total :
    (i : ℕ) (failed : Map ℕ CreateTransferResult) (rs : List ResourceType)
    → ((k : ℕ) → Expected (lookup k failed))
    → (out : List TransferResult) × (classify_from i failed rs ≡ ok out)
unfolding classify_from
classify_from-total i failed [] h = ([], refl)
classify_from-total i failed (r ∷ rs) h =
    let (t, e) = classify-total i r (lookup i failed) (h i) in
    let (ts, e') = classify_from-total (i + 1) failed rs h in (t ∷ ts, ground (arith, e, e'))

-- If TigerBeetle answers and reports only that transfers exist already or exceed the credits,
-- submitBatch returns results.
pub submit_batch_returns :
    (tb : TigerBeetle) (ts : List Transfer) (resources : List ResourceType) (s : tb.Store)
    (events : List TransferEventResult)
    → (tb.create_transfers ts s).0 ≡ some events
    → ((i : ℕ) → Expected (failure_at i events none))
    → (out : List TransferResult) × ((submit_batch tb ts resources s).0 ≡ ok out)
unfolding submit_batch
submit_batch_returns tb ts resources s events answered expected =
    let (out, e) =
      classify_from-total 0 (mark_failed events []) resources
        (λ i. subst Expected (sym (lookup-mark_failed i events [])) (expected i)) in
    (out, ground (arith, answered, e))
