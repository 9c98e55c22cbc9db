-- ===== src/Conversations.antt =====
-- Private conversations with a character (src/rumor_mill/engine/conversation.py).
pub mod Context
pub mod Output
pub mod Request
pub mod Safety
pub mod Stream
pub mod Scope
pub mod Reply
pub mod Decision
