-- ===== src/Lineage/Builder.antt =====
-- lineage/builder.rs: from the manifests of a cluster to its tree, and the calls of the editor.
pub mod Parse
pub mod Build
pub mod Nodes
pub mod Reported
pub mod Added
pub mod Kept
pub mod Store
pub mod Safe
pub mod Calls
