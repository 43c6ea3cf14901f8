-- ===== src/Executor.antt =====
-- The serial restore executor, crates/reforge-restore/src/executor.rs.
pub mod Session
pub mod Queue
pub mod Checks
pub mod Run
pub mod Turns
pub mod Outside
pub mod Moves
pub mod Starting
pub mod Keeping
pub mod Entering
pub mod Reaching
pub mod Leaves
pub mod Branches
pub mod Execution
pub mod Queueing
pub mod Handling
pub mod Whole
pub mod Finishing
pub mod Guarantees
pub mod ManualHandler
pub mod ManualKeeps
pub mod Stored
pub mod Truthful
mod Samples
mod ManualSamples
