-- ===== src/Worlds.antt =====
-- Authored worlds (src/rumor_mill/worlds).
pub mod Authoring
pub mod Records
pub mod Town
pub mod Presence
pub mod Staging
pub mod Continuity
pub mod Dependents
pub mod Visit
pub mod Reachable
pub mod References
pub mod Cycles
pub mod Acyclic
pub mod Resolve
pub mod Parts
pub mod Linked
