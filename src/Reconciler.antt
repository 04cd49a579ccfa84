-- ===== src/Reconciler.antt =====
-- src/reconciler.js: the part of the tick that dispatches cards.
pub mod Capacity
pub mod Dispatch
pub mod Counts
pub mod Limits
pub mod Lifecycle
pub mod StatusRuns
pub mod Verdicts
pub mod Kept
