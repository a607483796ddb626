-- ===== src/Lib.antt =====
-- cloud-credit-system: ledger-backed quota enforcement. A cluster sends heartbeats to the gateway,
-- which drops duplicates and signals the tenant's accounting workflow. The workflow collects the
-- heartbeats into a batch and flushes it to TigerBeetle, which enforces the quotas; PostgreSQL holds
-- a projection of the balances. This library models that path and proves what makes it correct.
--
-- Files, and the code that each is about:
--   Common              shared names, Go maps as association lists, signed integers, results
--   Domain              internal/domain: resource types, ledgers, account and transfer codes
--   Ledger/Bytes, Ids   internal/ledger/ids.go: the bytes that are hashed, the derived IDs
--   Ledger/TigerBeetle  the client's types and calls, as an interface over an abstract store
--   Ledger/Transfers    internal/ledger/transfers.go: submitBatch, SubmitUsageBatch,
--                       SubmitAllocations
--   Ledger/Gauge        internal/ledger/transfers.go: SubmitGaugePendingUpdates
--   Ledger/Accounts     internal/ledger/accounts.go
--   Accounting/Signals, Activities
--                       internal/accounting/signals.go, and what the workflow uses of activities
--   Accounting/Workflow internal/accounting/workflow_accounting.go: State (TenantAccountingState),
--                       Flush (flushBatch, flushAdjustment), Loop (handlers and main loop);
--                       Interleaved (the same with its waits); the other children hold theorems
--   Accounting/TbActivities
--                       internal/accounting/activities_tb.go
--   Accounting/Pg       internal/accounting/activities_pg.go: soft limits and snapshots of one tenant,
--                       Rows (the activities that write rows, without the CHECKs)
--   Accounting/Provisioning
--                       internal/accounting/workflow_provisioning.go
--   Gateway/Dedup       internal/gateway/dedup.go: MemDedup, and redisDedup in Redis
--   Gateway/Quotas      the quota status of heartbeat_handler.go and admin_handler.go
--   Gateway/Heartbeat   internal/gateway/heartbeat_handler.go: Resolve (resolveTenantID,
--                       signalHeartbeat), Handler (queryWorkflowState, Heartbeat)
--   Gateway/Stream      internal/gateway/heartbeat_handler.go: HeartbeatStream
--   Gateway/Streams     internal/gateway/stream_manager.go
--   Gateway/Latency     internal/gateway/heartbeat_handler.go: recordLatency, Percentiles
--   Gateway/Provisioning
--                       internal/gateway/provisioning_handler.go; Register/Waited composes it
--                       with the workflows
--   Gateway/Admin       internal/gateway/admin_handler.go; Credit composes it with the workflow
--   Server              cmd/server/main.go (bearerAuth, the connection loops),
--                       internal/config/config.go, internal/webui/handler.go (Dashboard)
--   Simulator/Cluster   cmd/simulator/main.go: ClusterSim.run, stepExhaust, stepIdempotency
--   Simulator/Display   cmd/simulator/ui.go: Model.Update, and what Model.View shows (View)
--   Db                  internal/db/sqlcgen on sql/migrations/001_initial.sql: Schema (models.go),
--                       Tenants, Clusters and Quota (the queries), Statement (those that write, as
--                       data); Integrity and Isolation hold theorems
--   System              the activities of the accounting workflow (activities_tb.go on TigerBeetle,
--                       activities_pg.go on Db: Postgres) with Temporal's attempts (World), under
--                       the workflow of Accounting/Workflow; Provisioning has those of
--                       workflow_provisioning.go, which Registered composes with RegisterTenant;
--                       the other children hold theorems
--   Tests               runs on concrete inputs, and the theorems at inputs that meet their
--                       hypotheses
--
-- How the code is read. Texts that are only compared (cluster and tenant IDs) are numbers; a resource
-- type is one of the three constants or another text. A [16]byte is the number that its bytes spell,
-- so its bytes are `le_bytes 16`. uint64 values are naturals, with the wrap-around of FlushSeqNo and
-- of conversions from int64 written out; int64 values are integers. A Go map is an association list.
-- A function that changes state takes it and returns the new one; an error is a value, and a panic of
-- LedgerID is an error of its own.
--
-- Parameters. BLAKE3 is a function from bytes to bytes. TigerBeetle is a record of calls on an abstract
-- store; what is assumed of it stands in Ledger/TigerBeetle as laws, by name. The workflow takes its
-- activities as a record: each call as Temporal executes it, retries included. RandomID and the order
-- in which a map is ranged over are arguments. Every loop is over a list, or counts the attempts left: 3 at
-- a query, 4 at a signal, 5 at an activity, as in the code. An attempt of an activity may be cut off at any
-- statement, and may do its work without its answer reaching Temporal.
--
-- Bounds. The workflow is modelled twice: in Loop a round (a signal, a timer, an update) runs to its end
-- before the next one; in Interleaved a transition is what runs between two waits for an activity, so
-- an update can run while a flush waits. A timer may fire at any time. Logging, query handlers and
-- retry timing are left out. A place in the channel of a stream that is freed in time counts as freed
-- before the message came. A statement of PostgreSQL is one step; one that breaks a constraint is an error
-- that changes nothing, and rows that ORDER BY does not tell apart stay in the order of the table.
--
-- Not modelled: migrations, compression, the wiring of clients at start-up, runtime statistics, the
-- styles and layout of the simulator's display, and most generated code: input and output, display
-- and third-party libraries.
pub mod Common
pub mod Domain
pub mod Ledger
pub mod Db
pub mod Accounting
pub mod System
pub mod Gateway
pub mod Server
pub mod Simulator
pub mod Tests
