-- ===== src/Beliefs.antt =====
-- The updates of per-character beliefs (src/rumor_mill/engine/beliefs.py).
pub mod Store
pub mod Service
pub mod Confidence
pub mod Versions
pub mod History
