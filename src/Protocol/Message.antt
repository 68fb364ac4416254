-- ===== src/Protocol/Message.antt =====
-- crates/wiredesk-protocol/src/message.rs: the messages, and what a host's generation allows.
-- Numbers of the source's unsigned types are plain numbers; `IsMessage` (in Ranges) has their
-- widths. `i16` and `i32` are integers. A `String` is its UTF-8 bytes.
pub mod Serialize
pub mod Deserialize
pub mod Ranges
mod Strings
pub mod Tags
pub mod RoundTrip
pub mod Sound
mod Tests
use wiredesk.Base.{ℕ, Bool, true, false, ltb, leb, ◌==◌, if◌then◌else◌}
use wiredesk.Base.Bytes.{Bytes}
use wiredesk.Base.Int.{ℤ}
use wiredesk.Base.Result.{ok, err}
use wiredesk.Core.Error.{Fallible, WireDeskError, unknown_message_type}

-- The version of `Hello`, and the generation that `HelloAck` announces.
abbrev pub version : ℕ
version = 1

abbrev pub host_proto_version : ℕ
host_proto_version = 5

unfoldable pub desktop_supported : ℕ → Bool
desktop_supported host_version = leb 5 host_version

unfoldable pub browser_supported : ℕ → Bool
browser_supported host_version = leb 4 host_version

unfoldable pub pty_slot_supported : ℕ → Bool
pty_slot_supported host_version = leb 2 host_version

unfoldable pub rx_progress_supported : ℕ → Bool
rx_progress_supported host_version = leb 3 host_version

pub data MessageType : Type 0 where
  hello hello_ack : MessageType
  mouse_move mouse_button mouse_scroll key_down key_up : MessageType
  clip_offer clip_chunk clip_ack clip_decline : MessageType
  heartbeat error disconnect : MessageType
  shell_open shell_input shell_output shell_close shell_exit : MessageType
  shell_open_pty pty_resize shell_closed : MessageType
  pty_open pty_input pty_output pty_close pty_exit rx_progress browser : MessageType

-- `msg_type as u8`.
unfoldable pub to_u8 : MessageType → ℕ
to_u8 hello = 0x01
to_u8 hello_ack = 0x02
to_u8 mouse_move = 0x10
to_u8 mouse_button = 0x11
to_u8 mouse_scroll = 0x12
to_u8 key_down = 0x13
to_u8 key_up = 0x14
to_u8 clip_offer = 0x20
to_u8 clip_chunk = 0x21
to_u8 clip_ack = 0x22
to_u8 clip_decline = 0x23
to_u8 heartbeat = 0x30
to_u8 error = 0x31
to_u8 disconnect = 0x32
to_u8 shell_open = 0x40
to_u8 shell_input = 0x41
to_u8 shell_output = 0x42
to_u8 shell_close = 0x43
to_u8 shell_exit = 0x44
to_u8 shell_open_pty = 0x45
to_u8 pty_resize = 0x46
to_u8 shell_closed = 0x47
to_u8 pty_open = 0x48
to_u8 pty_input = 0x49
to_u8 pty_output = 0x4a
to_u8 pty_close = 0x4b
to_u8 pty_exit = 0x4c
to_u8 rx_progress = 0x4d
to_u8 browser = 0x50

-- `MessageType::try_from`.
unfoldable pub try_from : ℕ → Fallible MessageType
try_from v =
    if v == 0x01
    then ok hello
    else if v == 0x02
    then ok hello_ack
    else if v == 0x10
    then ok mouse_move
    else if v == 0x11
    then ok mouse_button
    else if v == 0x12
    then ok mouse_scroll
    else if v == 0x13
    then ok key_down
    else if v == 0x14
    then ok key_up
    else if v == 0x20
    then ok clip_offer
    else if v == 0x21
    then ok clip_chunk
    else if v == 0x22
    then ok clip_ack
    else if v == 0x23
    then ok clip_decline
    else if v == 0x30
    then ok heartbeat
    else if v == 0x31
    then ok error
    else if v == 0x32
    then ok disconnect
    else if v == 0x40
    then ok shell_open
    else if v == 0x41
    then ok shell_input
    else if v == 0x42
    then ok shell_output
    else if v == 0x43
    then ok shell_close
    else if v == 0x44
    then ok shell_exit
    else if v == 0x45
    then ok shell_open_pty
    else if v == 0x46
    then ok pty_resize
    else if v == 0x47
    then ok shell_closed
    else if v == 0x48
    then ok pty_open
    else if v == 0x49
    then ok pty_input
    else if v == 0x4a
    then ok pty_output
    else if v == 0x4b
    then ok pty_close
    else if v == 0x4c
    then ok pty_exit
    else if v == 0x4d
    then ok rx_progress
    else if v == 0x50
    then ok browser
    else err (WireDeskError.protocol (unknown_message_type v))

pub data Message : Type 0 where
  hello : (version : ℕ) (client_name : Bytes) → Message
  hello_ack : (version : ℕ) (host_name : Bytes) (screen_w screen_h : ℕ) → Message
  mouse_move : (x y : ℕ) → Message
  mouse_button : (button : ℕ) (pressed : Bool) → Message
  mouse_scroll : (delta_x delta_y : ℤ) → Message
  key_down : (scancode modifiers : ℕ) → Message
  key_up : (scancode modifiers : ℕ) → Message
  clip_offer : (format total_len : ℕ) → Message
  clip_chunk : (index : ℕ) (bytes : Bytes) → Message
  clip_ack : (index : ℕ) → Message
  clip_decline : (format : ℕ) → Message
  heartbeat : Message
  error : (code : ℕ) (msg : Bytes) → Message
  disconnect : Message
  shell_open : (shell : Bytes) → Message
  shell_input : (bytes : Bytes) → Message
  shell_output : (bytes : Bytes) → Message
  shell_close : Message
  shell_closed : Message
  shell_exit : (code : ℤ) → Message
  shell_open_pty : (shell : Bytes) (cols rows : ℕ) → Message
  pty_resize : (cols rows : ℕ) → Message
  pty_open : (shell : Bytes) (cols rows : ℕ) → Message
  pty_input : (bytes : Bytes) → Message
  pty_output : (bytes : Bytes) → Message
  pty_close : Message
  pty_exit : (code : ℤ) → Message
  rx_progress : (count : ℕ) → Message
  browser : (stream kind offset : ℕ) (bytes : Bytes) → Message

unfoldable pub msg_type : Message → MessageType
msg_type (hello _ _) = MessageType.hello
msg_type (hello_ack _ _ _ _) = MessageType.hello_ack
msg_type (mouse_move _ _) = MessageType.mouse_move
msg_type (mouse_button _ _) = MessageType.mouse_button
msg_type (mouse_scroll _ _) = MessageType.mouse_scroll
msg_type (key_down _ _) = MessageType.key_down
msg_type (key_up _ _) = MessageType.key_up
msg_type (clip_offer _ _) = MessageType.clip_offer
msg_type (clip_chunk _ _) = MessageType.clip_chunk
msg_type (clip_ack _) = MessageType.clip_ack
msg_type (clip_decline _) = MessageType.clip_decline
msg_type heartbeat = MessageType.heartbeat
msg_type (error _ _) = MessageType.error
msg_type disconnect = MessageType.disconnect
msg_type (shell_open _) = MessageType.shell_open
msg_type (shell_input _) = MessageType.shell_input
msg_type (shell_output _) = MessageType.shell_output
msg_type shell_close = MessageType.shell_close
msg_type shell_closed = MessageType.shell_closed
msg_type (shell_exit _) = MessageType.shell_exit
msg_type (shell_open_pty _ _ _) = MessageType.shell_open_pty
msg_type (pty_resize _ _) = MessageType.pty_resize
msg_type (pty_open _ _ _) = MessageType.pty_open
msg_type (pty_input _) = MessageType.pty_input
msg_type (pty_output _) = MessageType.pty_output
msg_type pty_close = MessageType.pty_close
msg_type (pty_exit _) = MessageType.pty_exit
msg_type (rx_progress _) = MessageType.rx_progress
msg_type (browser _ _ _ _) = MessageType.browser

unfoldable pub needs_ack : Message → Bool
needs_ack (clip_offer _ _) = true
needs_ack (clip_chunk _ _) = true
needs_ack _ = false
