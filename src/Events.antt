-- ===== src/Events.antt =====
-- kubectl-client/src/events.rs: the colour of a status.
pub mod Statuses
pub mod Symbols
pub mod Color
