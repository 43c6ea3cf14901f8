-- ===== src/Operations.antt =====
-- The planner's operations, crates/reforge-restore/src/operations.rs: phases, stable sort keys, the
-- comparison of versions, and the order that overlapping writes are given.
pub mod Phase
pub mod Keys
pub mod Overlap
pub mod Version
pub mod VersionOrder
pub mod Growth
pub mod OverlapOrder
pub mod Arrays
pub mod ReadyKey
pub mod Tally
pub mod Topology
pub mod Building
pub mod Counting
pub mod Sorting
pub mod Releasing
pub mod Placing
pub mod DistinctKeys
pub mod Naming
pub mod Blocked
pub mod WholeOrder
pub mod DependencyOrder
mod Samples
mod OrderSamples
