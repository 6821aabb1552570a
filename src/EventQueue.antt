-- ===== src/EventQueue.antt =====
-- kubectl-client/src/event_queue.rs: the queue of events for the editor.
pub mod Queue
pub mod Refinement
