-- ===== src/Describe.antt =====
-- kubectl-client/src/describe_session.rs.
pub mod Poll
pub mod Changes
