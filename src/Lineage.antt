-- ===== src/Lineage.antt =====
-- kubectl-client/src/lineage: the graph of a cluster's resources, its queries, and orphans.
pub mod Resource
pub mod Graph
pub mod Orphan
pub mod Registry
pub mod Tree
pub mod Relations
pub mod Query
pub mod Listing
pub mod Export
pub mod Builder
