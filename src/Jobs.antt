-- ===== src/Jobs.antt =====
-- Durable background jobs: the table and its repository, the worker and what they guarantee.
pub mod Model
pub mod Repo
pub mod Invariant
pub mod Table
pub mod Preserve
pub mod Lookup
pub mod Claim
pub mod Leases
pub mod Steps
pub mod Traces
pub mod Worker
pub mod Abandoned
