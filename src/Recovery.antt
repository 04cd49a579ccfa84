-- ===== src/Recovery.antt =====
-- What a daemon does at its start with the attempts that another left behind (src/recovery.js).
pub mod Types
pub mod Evidence
pub mod Startup
pub mod Decisions
pub mod Resumable
pub mod Interrupted
