-- ===== src/Protocol/Message/Deserialize.antt =====
-- `Message::deserialize`. An index is read by `byte_at` behind the length check that the source
-- has there; `&payload[n..]` is `drop n`.
use wiredesk.Base.{
  ℕ, ◌+◌, Bool, not, ◌&&◌, ◌||◌, [], ◌∷◌, ltb, leb, ◌==◌, if◌then◌else◌, length, get_or, take, drop,
}
use wiredesk.Base.Bytes.{Bytes, from_le}
use wiredesk.Base.Int.{ℤ, of_word}
use wiredesk.Base.Result.{ok, err, ◌>>=◌, ◌>>◌, map_err}
use wiredesk.Base.Utf8.{from_utf8}
use wiredesk.Core.Error.{
  Fallible, WireDeskError, missing_string_length, string_truncated, invalid_utf8, payload_too_short,
  pty_resize_length, invalid_browser_frame,
}
use wiredesk.Protocol.Message.{Message, MessageType}

abbrev pub byte_at : Bytes → ℕ → ℕ
byte_at payload i = get_or payload i 0

-- `u16::from_le_bytes([payload[i], payload[i + 1]])`, and its like for four bytes.
abbrev pub u16_at : Bytes → ℕ → ℕ
u16_at payload i = from_le (take 2 (drop i payload))

abbrev pub u32_at : Bytes → ℕ → ℕ
u32_at payload i = from_le (take 4 (drop i payload))

abbrev pub u64_at : Bytes → ℕ → ℕ
u64_at payload i = from_le (take 8 (drop i payload))

abbrev pub i16_at : Bytes → ℕ → ℤ
i16_at payload i = of_word 0x8000 (u16_at payload i)

abbrev pub i32_at : Bytes → ℕ → ℤ
i32_at payload i = of_word 0x8000_0000 (u32_at payload i)

unfoldable pub ensure_min_len : Bytes → ℕ → Fallible (Unit {0})
ensure_min_len bytes least =
    if ltb (length bytes) least
    then err (WireDeskError.protocol (payload_too_short (length bytes) least))
    else ok tt

unfoldable pub read_string : Bytes → Fallible Bytes
read_string [] = err (WireDeskError.protocol missing_string_length)
read_string (len ∷ rest) =
    if ltb (length (len ∷ rest)) (1 + len)
    then err (WireDeskError.protocol string_truncated)
    else map_err (λ e. WireDeskError.protocol (invalid_utf8 e)) (from_utf8 (take len rest))

unfoldable pub read_string_with_rest : Bytes → Fallible (Bytes × Bytes)
read_string_with_rest [] = err (WireDeskError.protocol missing_string_length)
read_string_with_rest (len ∷ rest) =
    if ltb (length (len ∷ rest)) (1 + len)
    then err (WireDeskError.protocol string_truncated)
    else do
      s ← map_err (λ e. WireDeskError.protocol (invalid_utf8 e)) (from_utf8 (take len rest))
      ok (s, drop len rest)

-- The frames that the browser arm refuses.
abbrev pub bad_browser_frame : ℕ → ℕ → ℕ → Bytes → Bool
bad_browser_frame stream kind offset bytes =
    not (leb 1 kind && leb kind 8)
    || (not (kind == 3) && not (length bytes == 0))
    || (kind == 3 && length bytes == 0)
    || (stream == 0 && (not (kind == 6) || not (offset == 0)))
    || ((kind == 1 || kind == 2 || kind == 6 || kind == 8) && not (offset == 0))

unfoldable pub read_browser : Bytes → Fallible Message
read_browser payload =
    let stream = u32_at payload 0 in
    let kind = byte_at payload 4 in
    let offset = u64_at payload 5 in
    let bytes = drop 13 payload in
    if bad_browser_frame stream kind offset bytes
    then err (WireDeskError.protocol invalid_browser_frame)
    else ok (Message.browser stream kind offset bytes)

unfoldable pub read_pty_resize : Bytes → Fallible Message
read_pty_resize payload =
    if not (length payload == 4)
    then err (WireDeskError.protocol (pty_resize_length (length payload)))
    else ok (Message.pty_resize (u16_at payload 0) (u16_at payload 2))

-- An empty `ShellOpen` payload asks for the default shell.
unfoldable pub read_shell : Bytes → Fallible Bytes
read_shell [] = ok []
read_shell (b ∷ payload) = read_string (b ∷ payload)

unfoldable pub deserialize : MessageType → Bytes → Fallible Message
unfolding ensure_min_len read_browser read_pty_resize read_shell
deserialize MessageType.hello payload = do
  ensure_min_len payload (1 + 1)
  client_name ← read_string (drop 1 payload)
  ok (Message.hello (byte_at payload 0) client_name)
deserialize MessageType.hello_ack payload = do
  ensure_min_len payload (1 + 1 + 4)
  (host_name, rest) ← read_string_with_rest (drop 1 payload)
  ensure_min_len rest 4
  ok (Message.hello_ack (byte_at payload 0) host_name (u16_at rest 0) (u16_at rest 2))
deserialize MessageType.mouse_move payload = do
  ensure_min_len payload 4
  ok (Message.mouse_move (u16_at payload 0) (u16_at payload 2))
deserialize MessageType.mouse_button payload = do
  ensure_min_len payload 2
  ok (Message.mouse_button (byte_at payload 0) (not (byte_at payload 1 == 0)))
deserialize MessageType.mouse_scroll payload = do
  ensure_min_len payload 4
  ok (Message.mouse_scroll (i16_at payload 0) (i16_at payload 2))
deserialize MessageType.key_down payload = do
  ensure_min_len payload 3
  ok (Message.key_down (u16_at payload 0) (byte_at payload 2))
deserialize MessageType.key_up payload = do
  ensure_min_len payload 3
  ok (Message.key_up (u16_at payload 0) (byte_at payload 2))
deserialize MessageType.clip_offer payload = do
  ensure_min_len payload 5
  ok (Message.clip_offer (byte_at payload 0) (u32_at payload 1))
deserialize MessageType.clip_chunk payload = do
  ensure_min_len payload 2
  ok (Message.clip_chunk (u16_at payload 0) (drop 2 payload))
deserialize MessageType.clip_ack payload = do
  ensure_min_len payload 2
  ok (Message.clip_ack (u16_at payload 0))
deserialize MessageType.clip_decline payload = do
  ensure_min_len payload 1
  ok (Message.clip_decline (byte_at payload 0))
deserialize MessageType.heartbeat payload = ok Message.heartbeat
deserialize MessageType.disconnect payload = ok Message.disconnect
deserialize MessageType.error payload = do
  ensure_min_len payload (2 + 1)
  msg ← read_string (drop 2 payload)
  ok (Message.error (u16_at payload 0) msg)
deserialize MessageType.shell_open payload = do
  shell ← read_shell payload
  ok (Message.shell_open shell)
deserialize MessageType.shell_input payload = ok (Message.shell_input payload)
deserialize MessageType.shell_output payload = ok (Message.shell_output payload)
deserialize MessageType.shell_close payload = ok Message.shell_close
deserialize MessageType.shell_closed payload = ok Message.shell_closed
deserialize MessageType.shell_exit payload = do
  ensure_min_len payload 4
  ok (Message.shell_exit (i32_at payload 0))
deserialize MessageType.shell_open_pty payload = do
  ensure_min_len payload 4
  shell ← read_string (drop 4 payload)
  ok (Message.shell_open_pty shell (u16_at payload 0) (u16_at payload 2))
deserialize MessageType.pty_open payload = do
  ensure_min_len payload 4
  shell ← read_string (drop 4 payload)
  ok (Message.pty_open shell (u16_at payload 0) (u16_at payload 2))
deserialize MessageType.pty_input payload = ok (Message.pty_input payload)
deserialize MessageType.pty_output payload = ok (Message.pty_output payload)
deserialize MessageType.pty_close payload = ok Message.pty_close
deserialize MessageType.pty_exit payload = do
  ensure_min_len payload 4
  ok (Message.pty_exit (i32_at payload 0))
deserialize MessageType.pty_resize payload = read_pty_resize payload
deserialize MessageType.rx_progress payload = do
  ensure_min_len payload 8
  ok (Message.rx_progress (u64_at payload 0))
deserialize MessageType.browser payload = do ensure_min_len payload 13; read_browser payload
