-- ===== src/Gateway.antt =====
-- internal/gateway: the RPC handlers and the first layer of dedup.
pub mod Dedup
pub mod Quotas
pub mod Streams
pub mod Latency
pub mod Heartbeat
pub mod Stream
pub mod Provisioning
pub mod Admin
