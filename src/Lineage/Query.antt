-- ===== src/Lineage/Query.antt =====
-- lineage/query.rs: `GraphQuery`, a set of nodes that each call enlarges.
-- A set of nodes is a list in which no node repeats.
pub mod Climb
pub mod Ancestors
pub mod Select
pub mod Added
pub mod Loops
pub mod Related
pub mod Sets
