-- ===== src/Workspaces.antt =====
-- The clean-up of a workspace (src/workspace.js): what git and the files say, and the guards.
pub mod Types
pub mod Status
pub mod Guard
pub mod Cleanup
pub mod Checks
pub mod Removal
