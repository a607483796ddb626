-- ===== src/Ledger/TigerBeetle/Laws.antt =====
-- What the code relies on in TigerBeetle, as named hypotheses: the events of a call of CreateTransfers
-- are processed one after the other, and only failures are reported, under the index of their transfer.
use cloud_credit_system.Common.{ℕ, suc, ◌≡◌, ◌⊎◌, Option, none, some, List, [], ◌∷◌}
use cloud_credit_system.Ledger.TigerBeetle.{
  Transfer, CreateTransferResult, TransferEventResult, TigerBeetle,
}

module _ {S : Type 0} (create : Transfer → S → Option CreateTransferResult × S) where
  -- The store after the events of a call.
  abbrev pub process : List Transfer → S → S
  process [] s = s
  process (t ∷ ts) s = process ts (create t s).1

  -- The failures of a call, from index `i`.
  abbrev pub failures : ℕ → List Transfer → S → List TransferEventResult
  failures i [] s = []
  failures i (t ∷ ts) s =
      let (outcome, s') = create t s in
      let rest = failures (suc i) ts s' in
      elim outcome [ none ↦ rest | some r ↦ record { index = i; result = r } ∷ rest ]

  -- A call either reports the failures of its events, or is an error of the client. After an error
  -- the server may have processed the call, or not.
  abbrev pub Answers : List Transfer → S → Option (List TransferEventResult) × S → Type 0
  Answers ts s (some events, s') = (events ≡ failures 0 ts s) × (s' ≡ process ts s)
  Answers ts s (none, s') = (s' ≡ s) ⊎ (s' ≡ process ts s)

pub record TigerBeetleLaws (tb : TigerBeetle) : Type 0 where
  pub create : Transfer → tb.Store → Option CreateTransferResult × tb.Store
  pub answers : (ts : List Transfer) (s : tb.Store) → Answers create ts s (tb.create_transfers ts s)
