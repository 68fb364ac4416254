-- ===== src/Transport.antt =====
-- crates/wiredesk-transport: links that carry packets.
pub mod Framing
pub mod Fragment
pub mod Serial
pub mod Reconnect
