-- ===== src/Protocol/Message/Serialize.antt =====
-- `Message::serialize`. The buffer starts empty and is only appended to.
use wiredesk.Base.{ℕ, ◌%◌, min, Bool, true, false, [], ◌∷◌, ◌++◌, length, take}
use wiredesk.Base.Bytes.{Bytes, le_bytes}
use wiredesk.Base.Int.{ℤ, to_word}
use wiredesk.Protocol.Message.{Message}

-- The bytes of a word of each width.
abbrev pub u16_bytes : ℕ → Bytes
u16_bytes = le_bytes 2

abbrev pub u32_bytes : ℕ → Bytes
u32_bytes = le_bytes 4

abbrev pub u64_bytes : ℕ → Bytes
u64_bytes = le_bytes 8

abbrev pub i16_bytes : ℤ → Bytes
i16_bytes z = le_bytes 2 (to_word 0x8000 z)

abbrev pub i32_bytes : ℤ → Bytes
i32_bytes z = le_bytes 4 (to_word 0x8000_0000 z)

-- `*pressed as u8`.
abbrev pub bool_byte : Bool → ℕ
bool_byte true = 1
bool_byte false = 0

-- The text is cut at `max_len` bytes, wherever that falls in a character.
unfoldable pub write_string : Bytes → Bytes → ℕ → Bytes
write_string buf s max_len =
    let len = min (min (length s) max_len) 255 in buf ++ (len % 256 ∷ take len s)

unfoldable pub serialize : Message → Bytes
serialize (Message.hello version client_name) = write_string (version ∷ []) client_name 32
serialize (Message.hello_ack version host_name screen_w screen_h) =
    write_string (version ∷ []) host_name 32 ++ (u16_bytes screen_w ++ u16_bytes screen_h)
serialize (Message.mouse_move x y) = u16_bytes x ++ u16_bytes y
serialize (Message.mouse_button button pressed) = button ∷ bool_byte pressed ∷ []
serialize (Message.mouse_scroll delta_x delta_y) = i16_bytes delta_x ++ i16_bytes delta_y
serialize (Message.key_down scancode modifiers) = u16_bytes scancode ++ modifiers ∷ []
serialize (Message.key_up scancode modifiers) = u16_bytes scancode ++ modifiers ∷ []
serialize (Message.clip_offer format total_len) = format ∷ u32_bytes total_len
serialize (Message.clip_chunk index bytes) = u16_bytes index ++ bytes
serialize (Message.clip_ack index) = u16_bytes index
serialize (Message.clip_decline format) = format ∷ []
serialize Message.heartbeat = []
serialize Message.disconnect = []
serialize Message.shell_close = []
serialize Message.shell_closed = []
serialize Message.pty_close = []
serialize (Message.error code msg) = write_string (u16_bytes code) msg 256
serialize (Message.shell_open shell) = write_string [] shell 32
serialize (Message.shell_input bytes) = bytes
serialize (Message.shell_output bytes) = bytes
serialize (Message.pty_input bytes) = bytes
serialize (Message.pty_output bytes) = bytes
serialize (Message.shell_exit code) = i32_bytes code
serialize (Message.pty_exit code) = i32_bytes code
serialize (Message.shell_open_pty shell cols rows) =
    write_string (u16_bytes cols ++ u16_bytes rows) shell 32
serialize (Message.pty_open shell cols rows) =
    write_string (u16_bytes cols ++ u16_bytes rows) shell 32
serialize (Message.pty_resize cols rows) = u16_bytes cols ++ u16_bytes rows
serialize (Message.rx_progress count) = u64_bytes count
serialize (Message.browser stream kind offset bytes) =
    u32_bytes stream ++ (kind ∷ (u64_bytes offset ++ bytes))
