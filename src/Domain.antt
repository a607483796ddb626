-- ===== src/Domain.antt =====
-- internal/domain: resource types and their ledgers, account roles, transfer codes.
pub mod Resource
pub mod Codes
