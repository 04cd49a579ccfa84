-- ===== src/Router.antt =====
-- src/router.js: whether a card is dispatched, by which route, and in what order.
pub mod Types
pub mod Tags
pub mod Gates
pub mod Effective
pub mod Decide
pub mod Dispatch
pub mod Order
pub mod Eligible
pub mod Conflicts
pub mod Conditions
pub mod Dispatchable
