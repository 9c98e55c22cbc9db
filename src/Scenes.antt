-- ===== src/Scenes.antt =====
-- Off-screen scenes (src/rumor_mill/engine/scene_generation.py).
pub mod Plan
pub mod Output
pub mod Build
pub mod Store
pub mod Generate
pub mod Focus
pub mod Indexes
pub mod Cast
pub mod Scoped
pub mod Stored
pub mod Readback
pub mod Committed
