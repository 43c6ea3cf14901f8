-- ===== src/Journal.antt =====
-- The restore journal, crates/reforge-restore/src/journal.rs: runs, their approval, operations and
-- manual actions, and the transitions that a transaction makes.
pub mod Tables
pub mod Transitions
pub mod Recovery
pub mod Guarded
pub mod Approval
pub mod Lifecycle
pub mod Recovered
pub mod Steps
pub mod Manual
pub mod Adding
mod Samples
