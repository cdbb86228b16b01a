-- ===== src/Rpc.antt =====
-- rpc: the JSON-RPC server in front of the store, the rules and the registry.
pub mod Protocol
pub mod Files
pub mod Queries
pub mod Brief
pub mod Housekeeping
pub mod Indexes
pub mod Since
pub mod Observed
pub mod Summary
pub mod Answered
pub mod Dispatch
pub mod Guard
pub mod Escapes
pub mod Serving
pub mod Payloads
pub mod Readable
