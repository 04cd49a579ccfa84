-- ===== src/Orchestrator.antt =====
-- src/orchestrator-state.js: the runs that are active, the retry queue and the bounded logs.
pub mod Types
pub mod Defs
pub mod Runs
pub mod Renewals
pub mod Retries
pub mod Steps
pub mod Logs
pub mod Failures
pub mod Reconcile
pub mod RetryLaws
