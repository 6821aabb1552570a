-- ===== src/Lineage/Relations.antt =====
-- lineage/resource_behavior.rs: the resources to which a pod's specification refers.
pub mod Spec
pub mod Extract
pub mod Namespaces
pub mod Uses
pub mod Objects
pub mod Handlers
pub mod Templates
pub mod Scopes
