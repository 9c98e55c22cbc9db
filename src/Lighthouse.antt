-- ===== src/Lighthouse.antt =====
-- The Lighthouse season (src/rumor_mill/engine/lighthouse_pipeline.py).
pub mod Reading
pub mod Source
pub mod Collect
pub mod Due
pub mod Days
pub mod Over
pub mod Occurs
pub mod Handler
