-- ===== src/Processors.antt =====
-- kubectl-client/src/processors: the rows of the resource views.
pub mod Fields
pub mod Age
pub mod Items
pub mod PadKey
pub mod Cache
pub mod Process
pub mod Pod
