-- ===== src/Gateway/Heartbeat.antt =====
-- internal/gateway/heartbeat_handler.go: the unary heartbeat RPC and what the stream shares with it.
pub mod Resolve
pub mod Cached
pub mod Handler
pub mod Lost
