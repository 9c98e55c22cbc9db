-- ===== src/Recaps.antt =====
-- Daily recaps (src/rumor_mill/engine/recap.py and recap_publication.py).
pub mod Build
pub mod Selection
pub mod Artifacts
pub mod Publish
pub mod Later
pub mod Once
pub mod Plan
pub mod Handler
pub mod Closed
