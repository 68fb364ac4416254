-- ===== src/Core/Error.antt =====
-- crates/wiredesk-core/src/error.rs. The text that an error carries is named by its format
-- string, with the values that the string is filled with.
use wiredesk.Base.{ℕ}
use wiredesk.Base.Utf8.{Utf8Error}
use wiredesk.Base.Result.{Result}
use wiredesk.Protocol.Cobs.{DecodeError}

pub data Detail : Type 0 where
  unknown_message_type : ℕ → Detail
  missing_string_length string_truncated : Detail
  invalid_utf8 : Utf8Error → Detail
  payload_too_short : ℕ → ℕ → Detail
  pty_resize_length : ℕ → Detail
  invalid_browser_frame : Detail
  payload_too_large : ℕ → ℕ → Detail
  packet_too_short : ℕ → Detail
  bad_magic : ℕ → ℕ → Detail
  packet_truncated : ℕ → ℕ → Detail
  crc_mismatch : ℕ → ℕ → Detail
  cobs_decode : DecodeError → Detail
  frame_too_large : ℕ → Detail
  serial_read recv_timeout partial_abandoned frame_over_limit : Detail

pub data WireDeskError : Type 0 where
  transport protocol input clipboard config io : Detail → WireDeskError

-- `wiredesk_core::error::Result`.
abbrev pub Fallible : Type 0 → Type 0
Fallible A = Result WireDeskError A
