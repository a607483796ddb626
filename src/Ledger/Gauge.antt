-- ===== src/Ledger/Gauge.antt =====
-- internal/ledger/transfers.go, SubmitGaugePendingUpdates: pending reservations of gauge resources.
pub mod Outcome
use cloud_credit_system.Common.{
  ℕ, ◌+◌, ◌*◌, Bool, true, false, not, ◌&&◌, Option, none, some, List, [], ◌∷◌, ◌++◌, ◌==◌, nat_key,
  ltb, if◌then◌else◌, get_elem?, modify, Result, ok, err, ◌>>=◌, map,
}
use cloud_credit_system.Domain.Resource.{ResourceType, ledger_id}
use cloud_credit_system.Domain.Codes.{code_gauge_reservation}
use cloud_credit_system.Ledger.Ids.{uuid_to_uint128}
use cloud_credit_system.Ledger.TigerBeetle.{
  Transfer, CreateTransferResult, exceeds_credits, exists, exists_with_different_debit_account_id,
  exists_with_different_credit_account_id, exists_with_different_amount, pending_transfer_not_found,
  pending_transfer_already_voided, pending_transfer_already_posted, TransferEventResult,
  TigerBeetle,
}
use cloud_credit_system.Ledger.Transfers.{
  LedgerError, unknown_resource, create_transfers_failed, unexpected_result, index_out_of_range,
}

pub record GaugePendingUpdate : Type 0 where
  pub resource : ResourceType
  pub tenant_quota_id : ℕ
  pub sink_id : ℕ
  pub old_pending_id : Option ℕ
  pub new_amount : ℕ
  pub cluster_uuid : ℕ
  pub heartbeat_ts_ns : ℕ
  pub new_pending_id : ℕ
  pub void_transfer_id : ℕ

pub record GaugePendingResult : Type 0 where
  pub new_pending_id : ℕ
  pub accepted : Bool
  pub exceeds_credits : Bool

pub record Meta : Type 0 where
  pub update_idx : ℕ
  pub is_void : Bool

-- `RandomID()` where no deterministic ID is given. `random` numbers the draws of one call.
abbrev pub or_random : ℕ → ℕ → ℕ
or_random id drawn = if id == 0 then drawn else id

-- The first loop: `newPendingIDs`.
unfoldable pub new_pending_ids : (ℕ → ℕ) → ℕ → List GaugePendingUpdate → List ℕ
new_pending_ids random i [] = []
new_pending_ids random i (u ∷ us) =
    or_random u.new_pending_id (random (2 * i)) ∷ new_pending_ids random (i + 1) us

-- The void of the old pending transfer, if there is one.
unfoldable pub void_part : (ℕ → ℕ) → ℕ → ℕ → GaugePendingUpdate → List (Transfer × Meta)
void_part random i ledger u = elim u.old_pending_id [
  | none ↦ []
  | some old ↦
      (
        record {
          id = or_random u.void_transfer_id (random (2 * i + 1));
          pending_id = uuid_to_uint128 old;
          debit_account_id = u.tenant_quota_id;
          credit_account_id = u.sink_id;
          amount = 0;
          ledger = ledger;
          code = code_gauge_reservation;
          pending = false;
          void_pending_transfer = true;
          user_data_128 = 0;
          user_data_64 = 0;
        },
        record { update_idx = i; is_void = true },
      )
      ∷ []
]

-- The new reservation, if the gauge is not zero.
unfoldable pub create_part : (ℕ → ℕ) → ℕ → ℕ → GaugePendingUpdate → List (Transfer × Meta)
create_part random i ledger u =
    if ltb 0 u.new_amount
    then (
      record {
        id = or_random u.new_pending_id (random (2 * i));
        pending_id = 0;
        debit_account_id = u.tenant_quota_id;
        credit_account_id = u.sink_id;
        amount = u.new_amount;
        ledger = ledger;
        code = code_gauge_reservation;
        pending = true;
        void_pending_transfer = false;
        user_data_128 = uuid_to_uint128 u.cluster_uuid;
        user_data_64 = u.heartbeat_ts_ns;
      },
      record { update_idx = i; is_void = false },
    )
      ∷ []
    else []

-- `u.Resource.LedgerID()` is called only where a transfer is built.
abbrev pub needs_ledger : GaugePendingUpdate → Bool
needs_ledger u = elim u.old_pending_id [ none ↦ ltb 0 u.new_amount | some _ ↦ true ]

-- What the second loop adds for the update at index `i`; `none` is the panic.
unfoldable pub update_transfers : (ℕ → ℕ) → ℕ → GaugePendingUpdate → Option (List (Transfer × Meta))
update_transfers random i u = elim (ledger_id u.resource) [
  | none ↦ if needs_ledger u then none else some []
  | some ledger ↦ some (void_part random i ledger u ++ create_part random i ledger u)
]

-- The second loop: `tbTransfers` with `metas` beside it, from index `i`.
unfoldable pub gauge_transfers :
    (ℕ → ℕ) → ℕ → List GaugePendingUpdate → Option (List (Transfer × Meta))
gauge_transfers random i [] = some []
gauge_transfers random i (u ∷ us) = elim (update_transfers random i u) [
  | none ↦ none
  | some ts ↦ elim (gauge_transfers random (i + 1) us) [
    | none ↦ none
    | some rest ↦ some (ts ++ rest)
  ]
]

-- `results[i].Accepted = true` for each update.
unfoldable pub assume_accepted : List GaugePendingUpdate → List GaugePendingResult
assume_accepted [] = []
assume_accepted (u ∷ us) =
    record { new_pending_id = 0; accepted = true; exceeds_credits = false } ∷ assume_accepted us

abbrev pub reject : GaugePendingResult → GaugePendingResult
reject r = record r { accepted = false; exceeds_credits = true }

-- The `switch` on one failure.
unfoldable pub apply_failure :
    ℕ
    → Meta
    → CreateTransferResult
    → List GaugePendingResult
    → Result LedgerError (List GaugePendingResult)
apply_failure i m exceeds_credits rs = ok (if m.is_void then rs else modify rs m.update_idx reject)
apply_failure i m exists rs = ok rs
apply_failure i m exists_with_different_debit_account_id rs = ok rs
apply_failure i m exists_with_different_credit_account_id rs = ok rs
apply_failure i m exists_with_different_amount rs = ok rs
apply_failure i m pending_transfer_not_found rs =
    if m.is_void then ok rs else err (unexpected_result i pending_transfer_not_found)
apply_failure i m pending_transfer_already_voided rs =
    if m.is_void then ok rs else err (unexpected_result i pending_transfer_already_voided)
apply_failure i m pending_transfer_already_posted rs =
    if m.is_void then ok rs else err (unexpected_result i pending_transfer_already_posted)
apply_failure i m other rs = err (unexpected_result i other)

-- The loop over `tbResults`.
unfoldable pub apply_failures :
    List Meta
    → List TransferEventResult
    → List GaugePendingResult
    → Result LedgerError (List GaugePendingResult)
apply_failures metas [] rs = ok rs
apply_failures metas (e ∷ es) rs = elim (get_elem? metas e.index) [
  | none ↦ err (index_out_of_range e.index)
  | some m ↦ apply_failure e.index m e.result rs >>= apply_failures metas es
]

-- `results[m.updateIdx].Accepted`.
abbrev pub is_accepted : List GaugePendingResult → ℕ → Bool
is_accepted rs i = elim (get_elem? rs i) [ none ↦ false | some r ↦ r.accepted ]

abbrev pub id_at : List ℕ → ℕ → ℕ
id_at ids i = elim (get_elem? ids i) [ none ↦ 0 | some id ↦ id ]

-- The last loop, over `metas`.
unfoldable pub assign_ids : List ℕ → List Meta → List GaugePendingResult → List GaugePendingResult
assign_ids ids [] rs = rs
assign_ids ids (m ∷ ms) rs = assign_ids ids ms (
    if not m.is_void && is_accepted rs m.update_idx
    then modify rs m.update_idx (λ r. record r { new_pending_id = id_at ids m.update_idx })
    else rs)

-- What the results of a call become, given the failures that the server reports.
unfoldable pub gauge_results :
    (ℕ → ℕ)
    → List GaugePendingUpdate
    → List Meta
    → List TransferEventResult
    → Result LedgerError (List GaugePendingResult)
gauge_results random updates metas events = do
  rs ← apply_failures metas events (assume_accepted updates)
  ok (assign_ids (new_pending_ids random 0 updates) metas rs)

module _ (tb : TigerBeetle) where
  open tb use {Store, create_transfers}

  -- The call of the client, and what follows it; with no transfer to send there is no call.
  unfoldable pub send_gauge_transfers :
      (ℕ → ℕ)
      → List GaugePendingUpdate
      → List (Transfer × Meta)
      → Store
      → Result LedgerError (List GaugePendingResult) × Store
  send_gauge_transfers random updates [] s = (ok (assume_accepted updates), s)
  send_gauge_transfers random updates (t ∷ ts) s =
      let (results, s') = create_transfers (map (λ p. p.0) (t ∷ ts)) s in
      (
        elim results [
          | none ↦ err create_transfers_failed
          | some events ↦ gauge_results random updates (map (λ p. p.1) (t ∷ ts)) events
        ],
        s',
      )

  unfoldable pub submit_gauge_pending_updates :
      (ℕ → ℕ)
      → List GaugePendingUpdate
      → Store
      → Result LedgerError (List GaugePendingResult) × Store
  submit_gauge_pending_updates random updates s = elim (gauge_transfers random 0 updates) [
    | none ↦ (err unknown_resource, s)
    | some ts ↦ send_gauge_transfers random updates ts s
  ]
