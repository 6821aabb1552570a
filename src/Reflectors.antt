-- ===== src/Reflectors.antt =====
-- kubectl-client/src/store.rs.
pub mod Store
pub mod Removal
pub mod Accounts
pub mod Exclusive
pub mod Reads
