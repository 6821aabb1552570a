-- ===== src/Views.antt =====
-- kubectl-client/src/filter.rs, sort.rs and ui/views/top/state.rs: the rows that a view shows.
pub mod Filter
pub mod Sort
pub mod Sorted
pub mod Top
