-- ===== src/Lib.antt =====
-- WireDesk: a Mac steers a Windows machine over a serial cable or a Bluetooth link. Messages become
-- packets with a checksum, packets become COBS frames or BLE writes, and the other side takes them
-- apart again. This library models the code that both sides run on the way of a message, the client's
-- keymap and its lock on the host's shells, and the host's session with its shells and clipboard.
--
-- The parts, from the outside in:
-- * Client/Keymap (apps/wiredesk-client/src/input/keymap.rs): the scancode tables and the modifier
--   keys. `egui::Key` is named by the arms of the table, with the other keys told apart by a number;
--   flags words are numbers, their bits read by division.
-- * Client/ShellChannel (apps/wiredesk-client/src/shell_channel.rs): `try_acquire`, `owner` and the
--   drop of a guard, as steps on the state behind the mutex, with the list of guards that are alive.
--   A poisoned mutex and the `debug_assert` on `Idle` are left out.
-- * Host/Flow (apps/wiredesk-host/src/session.rs): `ShellFlow`, which follows the shell output on its
--   way, and the budgets of the exec slot.
-- * Host/Clipboard (apps/wiredesk-host/src/clipboard.rs): the chunks of a transfer and the state, with
--   child modules Incoming (`on_offer`, `on_chunk`, `commit`, `reset`) and Outgoing (`poll`,
--   `pack_file_or_warn`, the outbox). What the calls of the system, the PNG code and the hash give is
--   a parameter; the calls that were made are a list.
-- * Host/Session (apps/wiredesk-host/src/session.rs): the two shell slots and the warm shell, in Shells
--   the arms of `handle_packet` about shells, in Handler `handle_packet`, the heartbeat and the
--   timeout, in Pump `pump_slot` over the events that a shell has handed over, in Tick a whole tick over
--   what it finds. A process is a number.
--   How sends, the injector and the starts of processes end is a parameter, so every early return by
--   `?` is there; the calls that were made are a list. The storm counter is Core/Storm's, and the
--   browser hub's calls are only named.
-- * Protocol/Message (crates/wiredesk-protocol/src/message.rs): the messages, their tags, and
--   `serialize` and `deserialize` in child modules of those names. A `String` is its UTF-8 bytes.
-- * Protocol/Packet (packet.rs and crc.rs beside it): the packet around a message. The checksum is a
--   parameter, since it is the `crc` crate's; where it matters that it has 16 bits, a hypothesis
--   says so.
-- * Protocol/Cobs (cobs.rs beside it): the framing code, with the encoder's buffer and its patched
--   code bytes.
-- * Protocol/ClipFile (clip_file.rs beside it): the file name in front of a clipboard file,
--   and the basename it is saved under; `char::is_whitespace` is a parameter there.
-- * Transport/Framing (crates/wiredesk-transport/src/framing.rs): frames cut out of a byte stream.
-- * Transport/Serial (crates/wiredesk-transport/src/serial.rs): `ByteSource::next` and `read_frame`
--   over what the reads of the port hand over, and `send`.
-- * Transport/Fragment (crates/wiredesk-transport/src/bluetooth/fragment.rs): packets as BLE writes.
--   The map of slots is a function, instants are milliseconds, a panic is a value.
-- * Transport/Reconnect (crates/wiredesk-transport/src/bluetooth/reconnect.rs): the wait
--   before a retry, and whether there is one.
-- * Core/Error and Core/Storm (crates/wiredesk-core/src/error.rs and storm.rs): the errors, with the
--   format string that names them in place of the text, and the counter of protocol errors.
-- Base holds what they share: lists, words in little-endian bytes, two's complement, `Result`, and
-- `str::from_utf8` as the standard library documents it.
--
-- How they meet: Host/Session hands clipboard messages to Host/Clipboard, which speaks in messages of
-- Protocol/Message and unpacks files with Protocol/ClipFile, and it keeps a flow of Host/Flow.
-- Transport/Framing, Transport/Serial and Transport/Fragment carry what Protocol/Cobs and
-- Protocol/Packet make, and Protocol/Packet holds a message of Protocol/Message. The theorems about a
-- whole way (a packet sent and received) rest on those of the layers below.
--
-- Bounds: words keep their width, with `%` where the code wraps. Loops over bytes recurse on the
-- list; the only fuel is that of `slice::chunks`, which is the payload's length, and every chunk is
-- at least one byte long. What the serial port delivers is a list, and a call that the list leaves
-- without a result is `waiting`. Clocks are numbers of milliseconds.
--
-- Not modelled: the sockets, ports, radios, windows, processes and clipboards of the operating
-- systems, and the code that is mostly calls of them (the host's shells, injector and windows, the
-- client's link, tap and windows, the terminal, the browser bridge).
pub mod Base
pub mod Client
pub mod Core
pub mod Host
pub mod Protocol
pub mod Transport
