-- ===== src/Runs.antt =====
-- A card's run from its claim to its release (src/reconciler.js runCard), and the cancellation of
-- active runs. Every awaited call is an entry of a log; what calls answer, and which of them throw,
-- is asked of the outside by the log so far.
pub mod Types
pub mod Exec
pub mod Steps
pub mod Turns
pub mod Sessions
pub mod Card
pub mod Cancel
pub mod Cancelled
pub mod Triples
pub mod Protocol
pub mod Order
pub mod Ordered
pub mod Completion
pub mod Outcome
pub mod Released
pub mod TurnRules
pub mod TurnCount
