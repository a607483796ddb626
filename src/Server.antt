-- ===== src/Server.antt =====
-- cmd/server: start-up and the middleware in front of the handlers; internal/webui.
pub mod Config
pub mod Connect
pub mod Dashboard
pub mod Auth
