-- ===== src/Protocol.antt =====
-- crates/wiredesk-protocol: the codecs of the wire.
pub mod Cobs
pub mod Message
pub mod Packet
pub mod ClipFile
