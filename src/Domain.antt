-- ===== src/Domain.antt =====
-- The immutable domain contracts (src/rumor_mill/engine/domain): a contract is a record, and its
-- validator is a function that returns the record or raises.
pub mod Base
pub mod Subjective
pub mod Canon
pub mod World
