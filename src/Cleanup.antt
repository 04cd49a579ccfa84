-- ===== src/Cleanup.antt =====
-- What ends a run (src/completion.js): the policy for its card, and the cleanup of its workspace.
pub mod Eligibility
pub mod Policy
pub mod Eligible
