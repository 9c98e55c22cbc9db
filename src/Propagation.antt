-- ===== src/Propagation.antt =====
-- The propagation of rumors (src/rumor_mill/engine/propagation.py).
pub mod Rumors
pub mod Retell
pub mod Simulate
pub mod Traced
pub mod Outcome
