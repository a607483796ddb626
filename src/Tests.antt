-- ===== src/Tests.antt =====
-- Runs of the model on concrete inputs, and the theorems at inputs that meet their hypotheses.
mod Inputs
mod Bank
mod Ledger
mod Activities
mod Workflow
mod Interleaved
mod Gateway
mod Stream
mod Latency
mod Simulator
mod Display
mod Server
mod Admin
mod Registration
mod Journal
mod Database
mod System
mod Provisioning
