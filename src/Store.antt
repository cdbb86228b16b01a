-- ===== src/Store.antt =====
-- store/store.go: the memory store. Its parts are the modules below.
pub mod Fs
pub mod State
pub mod Lines
pub mod Read
pub mod Append
pub mod Edit
pub mod Actions
pub mod Counts
pub mod Brief
pub mod Observations
pub mod Clusters
pub mod Housekeeping
pub mod Indexes
pub mod Entities
pub mod Scan
pub mod Files
pub mod Paths
pub mod Traversal
pub mod Written
pub mod Frame
