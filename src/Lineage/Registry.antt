-- ===== src/Lineage/Registry.antt =====
-- lineage/registry.rs: what is known of each kind of resource.
pub mod Rules
pub mod Table
pub mod Orphans
pub mod CaseInsensitive
pub mod Verdicts
pub mod Unreferenced
