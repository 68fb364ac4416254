-- ===== src/Core.antt =====
-- crates/wiredesk-core: what both sides share.
pub mod Error
pub mod Storm
