-- ===== src/Logs.antt =====
-- kubectl-client/src/cmd/log_session.rs: the JSON toggle, and the containers whose logs are read.
pub mod Json
pub mod Span
pub mod Toggle
pub mod Targets
pub mod Resolved
