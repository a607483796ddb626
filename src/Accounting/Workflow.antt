-- ===== src/Accounting/Workflow.antt =====
-- internal/accounting/workflow_accounting.go. `State` is the state of the workflow, `Flush` holds
-- `flushBatch` and `flushAdjustment`, `Loop` the handlers and the main loop.
pub mod State
pub mod Flush
pub mod Loop
pub mod Seqs
pub mod FlushOutcome
pub mod Dedup
pub mod Timer
pub mod BatchSize
pub mod Continue
pub mod Credit
pub mod Interleaved
pub mod Keeps
