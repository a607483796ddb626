-- ===== src/Tests/Bank.antt =====
-- Small ledgers that stand for TigerBeetle.
use cloud_credit_system.Common.{
  ℕ, ◌+◌, Bool, true, Option, none, some, List, [], ◌∷◌, nat_beq, leb, if◌then◌else◌,
}
use cloud_credit_system.Ledger.TigerBeetle.{
  Account, Transfer, CreateTransferResult, exceeds_credits, exists, TransferEventResult,
  TigerBeetle,
}
use cloud_credit_system.Ledger.TigerBeetle.Laws.{process, failures}

-- A store with one limited account, 11.
pub record Wallet : Type 0 where
  pub credits : ℕ
  pub debits : ℕ

abbrev pub fits : Transfer → Wallet → Bool
fits t s = leb (s.debits + t.amount) s.credits

abbrev pub debit : Transfer → Wallet → Option CreateTransferResult × Wallet
debit t s =
    if nat_beq t.debit_account_id 11
    then (if fits t s
        then (none, record s { debits = s.debits + t.amount })
        else (some exceeds_credits, s))
    else (
      none,
      if nat_beq t.credit_account_id 11 then record s { credits = s.credits + t.amount } else s,
    )

abbrev pub bank : TigerBeetle
bank = record {
  Store = Wallet;
  create_accounts = λ accounts s. (some [], s);
  create_transfers = λ ts s. (some (failures debit 0 ts s), process debit ts s);
  lookup_accounts = λ ids s. some [];
}

-- A ledger that reports the second transfer as too large and knows three accounts.
abbrev pub account : ℕ → ℕ → Account
account id credits = record {
  id = id;
  ledger = 1;
  code = 2;
  debits_must_not_exceed_credits = true;
  history = true;
  user_data_128 = 0;
  credits_posted = credits;
  debits_posted = 7;
  debits_pending = 0;
}

abbrev pub known_accounts : List Account
known_accounts = account 11 100 ∷ account 12 200 ∷ []

abbrev pub partial_events : List TransferEventResult
partial_events =
    record { index = 1; result = exceeds_credits } ∷ record { index = 2; result = exists } ∷ []

abbrev pub partial : TigerBeetle
partial = record {
  Store = ℕ;
  create_accounts = λ accounts s. (some [], s + 1);
  create_transfers = λ ts s. (some partial_events, s + 1);
  lookup_accounts = λ ids s. some known_accounts;
}
