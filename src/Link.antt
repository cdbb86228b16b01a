-- ===== src/Link.antt =====
-- store/link.go: wiki links, their index, and the audit of unlinked mentions.
pub mod Words
pub mod Index
pub mod Audit
