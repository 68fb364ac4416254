-- ===== src/Host.antt =====
-- apps/wiredesk-host: the session that the host runs for a client.
pub mod Flow
pub mod Clipboard
pub mod Session
