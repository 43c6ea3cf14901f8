-- ===== src/Domain.antt =====
-- The crate reforge-domain: the data that the other crates share.
pub mod Error
pub mod Returns
pub mod Ensures
pub mod Kinds
pub mod Ids
pub mod Paths
pub mod Component
pub mod Operation
pub mod Selection
