-- ===== src/Scheduling.antt =====
-- The simulation clock and the scheduling of durable work.
pub mod Runs
pub mod Advance
pub mod Enqueue
pub mod Clock
pub mod Transaction
