-- ===== src/Examples.antt =====
-- The theorems applied to concrete inputs.
mod Sample
mod Lineage
mod Queries
mod Orphans
mod Rows
mod Logs
mod Listing
mod Keys
mod Manifests
mod Building
mod Streaming
mod Channels
mod Reflectors
mod Describe
mod Processing
