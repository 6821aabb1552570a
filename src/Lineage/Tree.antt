-- ===== src/Lineage/Tree.antt =====
-- lineage/tree.rs: the resources of a cluster as nodes of a graph, and the edges between them.
pub mod Keys
pub mod Build
pub mod Link
pub mod WellFormed
pub mod Frame
pub mod Owners
pub mod Mirrors
pub mod Referred
pub mod Sources
pub mod Marks
pub mod Linked
pub mod Views
pub mod Parents
pub mod Owned
pub mod Cycles
