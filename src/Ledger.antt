-- ===== src/Ledger.antt =====
-- internal/ledger: the TigerBeetle client wrapper.
pub mod Bytes
pub mod Ids
pub mod TigerBeetle
pub mod Transfers
pub mod Gauge
pub mod Accounts
