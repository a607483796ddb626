-- ===== src/Accounting.antt =====
-- internal/accounting: the tenant accounting workflow and its activities.
pub mod Signals
pub mod Activities
pub mod Provisioning
pub mod Workflow
pub mod TbActivities
pub mod Pg
