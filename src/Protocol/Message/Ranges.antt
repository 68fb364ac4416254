-- ===== src/Protocol/Message/Ranges.antt =====
-- The values that the fields' Rust types admit, and those that the wire format can carry.
use wiredesk.Base.{ℕ, ◌≤◌, ◌<◌, ◌≡◌, ◌≢◌, ◌⊎◌, false, length, arith}
use wiredesk.Base.Bytes.{Bytes, IsByte, AreBytes}
use wiredesk.Base.Int.{Fits}
use wiredesk.Base.Utf8.{IsUtf8}
use wiredesk.Protocol.Message.{Message}
use wiredesk.Protocol.Message.Deserialize.{bad_browser_frame}

abbrev pub IsU16 : ℕ → Type 0
IsU16 n = n < 65536

abbrev pub IsU32 : ℕ → Type 0
IsU32 n = n < 4294967296

abbrev pub IsU64 : ℕ → Type 0
IsU64 n = n < 18446744073709551616

abbrev pub IsText : Bytes → Type 0
IsText s = AreBytes s × IsUtf8 s

-- The fields lie within their types.
abbrev pub IsMessage : Message → Type 0
IsMessage (Message.hello version name) = IsByte version × IsText name
IsMessage (Message.hello_ack version name w h) = IsByte version × IsText name × IsU16 w × IsU16 h
IsMessage (Message.mouse_move x y) = IsU16 x × IsU16 y
IsMessage (Message.mouse_button button _) = IsByte button × Unit {0}
IsMessage (Message.mouse_scroll x y) = Fits 0x8000 x × Fits 0x8000 y
IsMessage (Message.key_down scancode modifiers) = IsU16 scancode × IsByte modifiers
IsMessage (Message.key_up scancode modifiers) = IsU16 scancode × IsByte modifiers
IsMessage (Message.clip_offer format total_len) = IsByte format × IsU32 total_len
IsMessage (Message.clip_chunk index bytes) = IsU16 index × AreBytes bytes
IsMessage (Message.clip_ack index) = IsU16 index
IsMessage (Message.clip_decline format) = IsByte format
IsMessage (Message.error code msg) = IsU16 code × IsText msg
IsMessage (Message.shell_open shell) = IsText shell
IsMessage (Message.shell_input bytes) = AreBytes bytes
IsMessage (Message.shell_output bytes) = AreBytes bytes
IsMessage (Message.pty_input bytes) = AreBytes bytes
IsMessage (Message.pty_output bytes) = AreBytes bytes
IsMessage (Message.shell_exit code) = Fits 0x8000_0000 code
IsMessage (Message.pty_exit code) = Fits 0x8000_0000 code
IsMessage (Message.shell_open_pty shell cols rows) = IsText shell × IsU16 cols × IsU16 rows
IsMessage (Message.pty_open shell cols rows) = IsText shell × IsU16 cols × IsU16 rows
IsMessage (Message.pty_resize cols rows) = IsU16 cols × IsU16 rows
IsMessage (Message.rx_progress count) = IsU64 count
IsMessage (Message.browser stream kind offset bytes) =
    IsU32 stream × IsByte kind × IsU64 offset × AreBytes bytes
IsMessage _ = Unit

-- Browser frames: kinds 1 to 8, data in DATA frames and in no others, stream 0 for a reset-all
-- alone, and no offset on OPEN, READY, RESET and OPEN_DESKTOP.
pub record IsBrowserFrame (stream kind offset : ℕ) (bytes : Bytes) : Type 0 where
  pub low : 1 ≤ kind
  pub high : kind ≤ 8
  pub filled : kind ≡ 3 → 0 < length bytes
  pub bare : kind ≢ 3 → length bytes ≡ 0
  pub all_streams : stream ≡ 0 → (kind ≡ 6) × (offset ≡ 0)
  pub no_offset : (kind ≡ 1) ⊎ (kind ≡ 2) ⊎ (kind ≡ 6) ⊎ (kind ≡ 8) → offset ≡ 0

-- What survives the wire: texts up to the limit of their field, and browser frames as above.
abbrev pub Carries : Message → Type 0
Carries (Message.hello _ name) = length name ≤ 32
Carries (Message.hello_ack _ name _ _) = length name ≤ 32
Carries (Message.error _ msg) = length msg ≤ 255
Carries (Message.shell_open shell) = length shell ≤ 32
Carries (Message.shell_open_pty shell _ _) = length shell ≤ 32
Carries (Message.pty_open shell _ _) = length shell ≤ 32
Carries (Message.browser stream kind offset bytes) = IsBrowserFrame stream kind offset bytes
Carries _ = Unit

pub bad_browser_frame-IsBrowserFrame :
    (stream kind offset : ℕ) (bytes : Bytes)
    → IsBrowserFrame stream kind offset bytes
    → bad_browser_frame stream kind offset bytes ≡ false
bad_browser_frame-IsBrowserFrame stream kind offset bytes f =
    ground (arith, f.filled, f.bare, f.all_streams, f.no_offset)

pub IsBrowserFrame-bad_browser_frame :
    (stream kind offset : ℕ) (bytes : Bytes)
    → bad_browser_frame stream kind offset bytes ≡ false
    → IsBrowserFrame stream kind offset bytes
IsBrowserFrame-bad_browser_frame stream kind offset bytes h = record {
  low = ground arith;
  high = ground arith;
  filled = λ e. ground arith;
  bare = λ e. ground arith;
  all_streams = λ e. (ground arith, ground arith);
  no_offset = λ e. ground arith;
}
