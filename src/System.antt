-- ===== src/System.antt =====
-- The workflows on their own activities: TigerBeetle and PostgreSQL under Temporal's retries.
pub mod Postgres
pub mod World
pub mod Runs
pub mod Traced
pub mod Consequences
pub mod Projection
pub mod Attempts
pub mod Projected
pub mod Recorded
pub mod Provisioning
pub mod Mapping
pub mod Inserted
pub mod Wallets
pub mod Provisioned
pub mod Registered
