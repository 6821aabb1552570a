-- ===== src/Lineage/Listing.antt =====
-- lineage/tree.rs and lineage/query.rs: the sorted lists of keys that are read off a linked tree.
pub mod Collect
pub mod Keys
pub mod Orphans
pub mod Family
pub mod Gather
pub mod Impact
pub mod Affected
pub mod Impacted
