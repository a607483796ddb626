-- ===== src/Db.antt =====
-- PostgreSQL as the program uses it: the statements of internal/db/sqlcgen on the tables of
-- sql/migrations/001_initial.sql.
pub mod Table
pub mod Schema
pub mod Tenants
pub mod Clusters
pub mod Quota
pub mod Statement
pub mod Integrity
pub mod Isolation
