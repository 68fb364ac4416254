-- ===== src/Client.antt =====
-- apps/wiredesk-client: the pure parts of the desktop client.
pub mod ShellChannel
pub mod Keymap
