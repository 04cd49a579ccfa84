-- ===== src/Claims.antt =====
-- src/claims.js: the claim protocol that several daemons play over the comments of a card.
pub mod Types
pub mod Inputs
pub mod Markers
pub mod EventLog
pub mod Select
pub mod Store
pub mod Inspect
pub mod Selection
pub mod Winner
pub mod RoundTrip
pub mod Acquire
pub mod Exclusive
pub mod TwoClaims
pub mod Race
pub mod Startup
