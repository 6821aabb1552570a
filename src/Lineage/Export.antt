-- ===== src/Lineage/Export.antt =====
-- lineage/tree.rs: subgraphs, and graphs as text.
pub mod Subgraph
pub mod Output
pub mod Total
