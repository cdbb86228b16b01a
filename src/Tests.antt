-- ===== src/Tests.antt =====
-- The theorems at concrete inputs.
pub mod Fixtures
mod Stores
mod Links
mod Registries
mod Requests
mod Observed
