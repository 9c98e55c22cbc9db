-- ===== src/Tests.antt =====
-- Concrete data, and each theorem at a concrete input where its hypotheses hold.
mod Jobs
mod Worker
mod Scheduling
mod Beliefs
mod Propagation
mod Worlds
mod Memories
mod Recaps
mod Lighthouse
mod Scenes
mod Conversations
mod Evaluation
