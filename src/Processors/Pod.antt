-- ===== src/Processors/Pod.antt =====
-- processors/pod.rs: the status and the readiness of a pod.
pub mod Types
pub mod Containers
pub mod Status
pub mod Reports
pub mod Phases
