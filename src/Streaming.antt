-- ===== src/Streaming.antt =====
-- kubectl-client/src/streaming.rs: sessions that receive messages from tasks.
pub mod Channel
pub mod Session
pub mod Tasks
pub mod Receive
pub mod Bidirectional
pub mod Delivery
pub mod Taken
