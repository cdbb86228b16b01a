-- ===== src/Domain.antt =====
-- domain/domain.go: the registry of domains. Its parts are the modules below.
pub mod Schema
pub mod Controller
pub mod Owner
