-- ===== src/Scheduler.antt =====
-- src/scheduler.js: the loop that runs one reconciliation tick at a time, and
-- src/server.js: the queue of webhook hints that it drains.
-- A call into the scheduler, a timer that fires and a tick that settles are the events; the
-- calls of `runTick` that the code has made are kept in `ticks`, in order.
pub mod Defs
pub mod Invariant
pub mod Delivery
