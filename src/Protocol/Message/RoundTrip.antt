-- ===== src/Protocol/Message/RoundTrip.antt =====
-- `deserialize` undoes `serialize`.
use wiredesk.Base.{
  ℕ, suc, ◌≤◌, ◌≡◌, refl, ap, ◌∙◌, true, false, [], ◌∷◌, ◌++◌, le→ltb, length, take, length-append,
  arith,
}
use wiredesk.Base.Bytes.{Bytes, le_bytes, from_le, from_le-le_bytes}
use wiredesk.Base.Int.{ℤ, Fits, to_word, of_word, of_word-to_word, to_word-lt}
use wiredesk.Base.Result.{ok, err, ◌>>=◌}
use wiredesk.Base.Utf8.{Utf8Error, from_utf8, IsUtf8}
use wiredesk.Core.Error.{WireDeskError, invalid_utf8}
use wiredesk.Protocol.Message.{Message, MessageType, msg_type}
use wiredesk.Protocol.Message.Serialize.{serialize}
use wiredesk.Protocol.Message.Deserialize.{deserialize}
use wiredesk.Protocol.Message.Ranges.{IsMessage, Carries, bad_browser_frame-IsBrowserFrame}
use wiredesk.Protocol.Message.Strings.{
  cut, checked, cut-all, write_string-cut, read_string-cut, read_string_with_rest-cut,
}

i16-round : (z : ℤ) → Fits 0x8000 z → of_word 0x8000 (from_le (le_bytes 2 (to_word 0x8000 z))) ≡ z
i16-round z h =
    ap (of_word 0x8000) (from_le-le_bytes 2 (to_word 0x8000 z) (to_word-lt 0x8000 z h))
    ∙ of_word-to_word 0x8000 z h

i32-round :
    (z : ℤ)
    → Fits 0x8000_0000 z
    → of_word 0x8000_0000 (from_le (le_bytes 4 (to_word 0x8000_0000 z))) ≡ z
i32-round z h =
    ap (of_word 0x8000_0000)
      (from_le-le_bytes 4 (to_word 0x8000_0000 z) (to_word-lt 0x8000_0000 z h))
    ∙ of_word-to_word 0x8000_0000 z h

-- What a `Hello` becomes: its name as far as the field goes.
pub hello-round :
    (version : ℕ) (name : Bytes)
    → deserialize MessageType.hello (serialize (Message.hello version name))
      ≡ (checked (cut 32 name) >>= λ t. ok (Message.hello version t))
unfolding serialize deserialize
hello-round version name =
    rw (write_string-cut (version ∷ []) name 32)
      (rw (read_string-cut name 32, le→ltb (suc (suc (length (cut 32 name)))) 2 (omega arith)))

hello_ack-round :
    (version : ℕ) (name : Bytes) (w h : ℕ)
    → deserialize MessageType.hello_ack (serialize (Message.hello_ack version name w h)) ≡ (
        checked (cut 32 name) >>= λ t.
        ok (Message.hello_ack version t (from_le (le_bytes 2 w)) (from_le (le_bytes 2 h))))
unfolding serialize deserialize
hello_ack-round version name w h =
    let t = cut 32 name in
    let tail = le_bytes 2 w ++ le_bytes 2 h in
    let size : 6 ≤ suc (suc (length (t ++ tail))) = omega (arith, length-append t tail) in
    rw (write_string-cut (version ∷ []) name 32)
      (rw (read_string_with_rest-cut name tail 32, le→ltb _ 6 size) (ground arith))

error-round :
    (code : ℕ) (msg : Bytes)
    → deserialize MessageType.error (serialize (Message.error code msg))
      ≡ (checked (cut 256 msg) >>= λ t. ok (Message.error (from_le (le_bytes 2 code)) t))
unfolding serialize deserialize
error-round code msg =
    rw (write_string-cut (le_bytes 2 code) msg 256) (
      rw (read_string-cut msg 256, le→ltb (suc (suc (suc (length (cut 256 msg))))) 3 (omega arith)))

shell_open-round :
    (shell : Bytes)
    → deserialize MessageType.shell_open (serialize (Message.shell_open shell))
      ≡ (checked (cut 32 shell) >>= λ t. ok (Message.shell_open t))
unfolding serialize deserialize
shell_open-round shell = rw (write_string-cut [] shell 32) (rw (read_string-cut shell 32))

shell_open_pty-round :
    (shell : Bytes) (cols rows : ℕ)
    → deserialize MessageType.shell_open_pty (serialize (Message.shell_open_pty shell cols rows))
      ≡ (checked (cut 32 shell) >>= λ t.
          ok (Message.shell_open_pty t (from_le (le_bytes 2 cols)) (from_le (le_bytes 2 rows))))
unfolding serialize deserialize
shell_open_pty-round shell cols rows =
    rw (write_string-cut (le_bytes 2 cols ++ le_bytes 2 rows) shell 32) (
      rw (
        read_string-cut shell 32,
        le→ltb (suc (suc (suc (suc (suc (length (cut 32 shell))))))) 4 (omega arith),
      ))

pty_open-round :
    (shell : Bytes) (cols rows : ℕ)
    → deserialize MessageType.pty_open (serialize (Message.pty_open shell cols rows)) ≡ (
        checked (cut 32 shell) >>= λ t.
        ok (Message.pty_open t (from_le (le_bytes 2 cols)) (from_le (le_bytes 2 rows))))
unfolding serialize deserialize
pty_open-round shell cols rows =
    rw (write_string-cut (le_bytes 2 cols ++ le_bytes 2 rows) shell 32) (
      rw (
        read_string-cut shell 32,
        le→ltb (suc (suc (suc (suc (suc (length (cut 32 shell))))))) 4 (omega arith),
      ))

checked-text :
    (max_len : ℕ) (s : Bytes)
    → length s ≤ max_len
    → length s ≤ 255
    → IsUtf8 s
    → checked (cut max_len s) ≡ ok s
checked-text max_len s h k u = rw (cut-all max_len s h k, u)

browser-round :
    (stream kind offset : ℕ) (bytes : Bytes)
    → IsMessage (Message.browser stream kind offset bytes)
    → Carries (Message.browser stream kind offset bytes)
    → deserialize MessageType.browser (serialize (Message.browser stream kind offset bytes))
      ≡ ok (Message.browser stream kind offset bytes)
unfolding serialize deserialize
browser-round stream kind offset bytes h c =
    rw
      (
        from_le-le_bytes 4 stream h.0,
        from_le-le_bytes 8 offset h.2,
        bad_browser_frame-IsBrowserFrame stream kind offset bytes c,
      )
      (ground arith)

-- Every message whose fields lie within their types comes back as it was sent, provided that its
-- texts fit their fields (32 bytes, 255 for an error's text) and a browser frame is one of those
-- that the protocol defines.
pub deserialize-serialize :
    (m : Message) → IsMessage m → Carries m → deserialize (msg_type m) (serialize m) ≡ ok m
unfolding msg_type
deserialize-serialize (Message.hello v name) h c =
    rw (hello-round v name, checked-text 32 name c (omega arith) h.1.1)
deserialize-serialize (Message.hello_ack v name x y) h c = rw (
  hello_ack-round v name x y,
  checked-text 32 name c (omega arith) h.1.1,
  from_le-le_bytes 2 x h.2,
  from_le-le_bytes 2 y h.3,
)
deserialize-serialize (Message.mouse_move x y) h c =
    unfold serialize deserialize in rw (from_le-le_bytes 2 x h.0, from_le-le_bytes 2 y h.1)
deserialize-serialize (Message.mouse_button button true) h c = unfold serialize deserialize in refl
deserialize-serialize (Message.mouse_button button false) h c = unfold serialize deserialize in refl
deserialize-serialize (Message.mouse_scroll x y) h c =
    unfold serialize deserialize in rw (i16-round x h.0, i16-round y h.1)
deserialize-serialize (Message.key_down s m) h c =
    unfold serialize deserialize in rw (from_le-le_bytes 2 s h.0)
deserialize-serialize (Message.key_up s m) h c =
    unfold serialize deserialize in rw (from_le-le_bytes 2 s h.0)
deserialize-serialize (Message.clip_offer f n) h c =
    unfold serialize deserialize in rw (from_le-le_bytes 4 n h.1)
deserialize-serialize (Message.clip_chunk i bytes) h c =
    unfold serialize deserialize in
    rw (le→ltb (suc (suc (length bytes))) 2 (omega arith), from_le-le_bytes 2 i h.0)
deserialize-serialize (Message.clip_ack i) h c =
    unfold serialize deserialize in rw (from_le-le_bytes 2 i h)
deserialize-serialize (Message.clip_decline f) h c = unfold serialize deserialize in refl
deserialize-serialize Message.heartbeat h c = unfold serialize deserialize in refl
deserialize-serialize (Message.error code msg) h c =
    rw (
      error-round code msg,
      checked-text 256 msg (omega arith) c h.1.1,
      from_le-le_bytes 2 code h.0,
    )
deserialize-serialize Message.disconnect h c = unfold serialize deserialize in refl
deserialize-serialize (Message.shell_open shell) h c =
    rw (shell_open-round shell, checked-text 32 shell c (omega arith) h.1)
deserialize-serialize (Message.shell_input bytes) h c = unfold serialize deserialize in refl
deserialize-serialize (Message.shell_output bytes) h c = unfold serialize deserialize in refl
deserialize-serialize Message.shell_close h c = unfold serialize deserialize in refl
deserialize-serialize Message.shell_closed h c = unfold serialize deserialize in refl
deserialize-serialize (Message.shell_exit code) h c =
    unfold serialize deserialize in rw (i32-round code h)
deserialize-serialize (Message.shell_open_pty shell cols rows) h c = rw (
  shell_open_pty-round shell cols rows,
  checked-text 32 shell c (omega arith) h.0.1,
  from_le-le_bytes 2 cols h.1,
  from_le-le_bytes 2 rows h.2,
)
deserialize-serialize (Message.pty_resize cols rows) h c =
    unfold serialize deserialize in rw (from_le-le_bytes 2 cols h.0, from_le-le_bytes 2 rows h.1)
deserialize-serialize (Message.pty_open shell cols rows) h c = rw (
  pty_open-round shell cols rows,
  checked-text 32 shell c (omega arith) h.0.1,
  from_le-le_bytes 2 cols h.1,
  from_le-le_bytes 2 rows h.2,
)
deserialize-serialize (Message.pty_input bytes) h c = unfold serialize deserialize in refl
deserialize-serialize (Message.pty_output bytes) h c = unfold serialize deserialize in refl
deserialize-serialize Message.pty_close h c = unfold serialize deserialize in refl
deserialize-serialize (Message.pty_exit code) h c =
    unfold serialize deserialize in rw (i32-round code h)
deserialize-serialize (Message.rx_progress count) h c =
    unfold serialize deserialize in rw (from_le-le_bytes 8 count h)
deserialize-serialize (Message.browser stream kind offset bytes) h c =
    browser-round stream kind offset bytes h c

-- A `Hello` whose name is cut by the 32-byte field inside a character is refused by the receiver,
-- with the error that `from_utf8` gives for the 32 bytes that are left.
pub hello_cut :
    (version : ℕ) (name : Bytes) {e : Utf8Error}
    → from_utf8 (take 32 name) ≡ err e
    → deserialize MessageType.hello (serialize (Message.hello version name))
      ≡ err (WireDeskError.protocol (invalid_utf8 e))
hello_cut version name h = rw (hello-round version name, h)
