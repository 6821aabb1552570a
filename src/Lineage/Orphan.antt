-- ===== src/Lineage/Orphan.antt =====
-- lineage/orphan_rules.rs: which resources nothing uses, as a small language of conditions.
pub mod Condition
pub mod Patterns
pub mod Antitone
