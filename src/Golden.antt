-- ===== src/Golden.antt =====
-- The golden tickets of a board, which declare its routes (src/validation.js).
pub mod Types
pub mod Families
pub mod Completion
pub mod Graph
pub mod Cycles
pub mod Discover
pub mod Columns
