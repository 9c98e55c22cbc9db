-- ===== src/Memories.antt =====
-- The formation of memories (src/rumor_mill/engine/memory.py).
pub mod Records
pub mod Formation
pub mod Once
pub mod Retrieval
pub mod Budget
