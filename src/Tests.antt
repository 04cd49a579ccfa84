-- ===== src/Tests.antt =====
-- Tests, and the theorems at concrete inputs.
mod Scheduler
mod Orchestrator
mod Claims
mod Golden
mod Router
mod Runs
mod Reconciler
mod Cleanup
mod EtagCache
mod Workspaces
mod Recovery
