-- ===== src/Transport/Framing.antt =====
-- crates/wiredesk-transport/src/framing.rs: frames on a byte stream.
pub mod Invariant
pub mod Resync
pub mod Delivery
mod Tests
use wiredesk.Base.{
  ℕ, ◌+◌, ◌%◌, Bool, true, false, not, List, [], ◌∷◌, ◌++◌, Option, none, some, foldl, ltb, ◌==◌,
  if◌then◌else◌, length,
}
use wiredesk.Base.Bytes.{Bytes}
use wiredesk.Base.Result.{Result, ok, err, ◌>>=◌, map_err}
use wiredesk.Core.Error.{Fallible, WireDeskError, cobs_decode, frame_too_large}
use wiredesk.Protocol.Cobs
use wiredesk.Protocol.Packet.{Packet, to_bytes, from_bytes}

abbrev pub max_frame_size : ℕ
max_frame_size = 8192

pub record FrameReader : Type 0 where
  pub partial : Bytes
  pub resyncing : Bool
  pub ready : List Bytes
  pub oversize_dropped : ℕ

-- `FrameReader::new`.
abbrev pub new : FrameReader
new = record { partial = []; resyncing = false; ready = []; oversize_dropped = 0 }

-- A delimiter outside resync: a non-empty frame is complete, an empty one is skipped.
unfoldable pub end_frame : FrameReader → Bytes → FrameReader
end_frame r [] = r
end_frame r (b ∷ bs) = record r { partial = []; ready = r.ready ++ ((b ∷ bs) ++ 0 ∷ []) ∷ [] }

-- A data byte outside resync: past the limit the frame is dropped. The counter is a `u32`.
unfoldable pub push_byte : FrameReader → ℕ → FrameReader
push_byte r b =
    if ltb max_frame_size (length (r.partial ++ b ∷ []))
    then record r {
      partial = [];
      resyncing = true;
      oversize_dropped = (r.oversize_dropped + 1) % 4294967296;
    }
    else record r { partial = r.partial ++ b ∷ [] }

-- One round of the loop in `feed`.
unfoldable pub feed_byte : FrameReader → ℕ → FrameReader
feed_byte r b =
    if r.resyncing
    then (if b == 0 then record r { resyncing = false } else r)
    else if b == 0
    then end_frame r r.partial
    else push_byte r b

abbrev pub feed : FrameReader → Bytes → FrameReader
feed = foldl feed_byte

has_frame : FrameReader → Bool
has_frame r = not (length r.ready == 0)

partial_len : FrameReader → ℕ
partial_len r = length r.partial

unfoldable pub abandon_partial : FrameReader → FrameReader
abandon_partial r = record r { partial = [] }

module _ (checksum : Bytes → ℕ) where
  unfoldable pub encode_frame : Packet → Fallible Bytes
  encode_frame packet = do raw ← to_bytes checksum packet; ok (0 ∷ Cobs.encode raw)

  -- COBS and packet decoding of a complete frame.
  unfoldable pub decode_frame : Bytes → Fallible (Option Packet)
  decode_frame frame = do
    raw ← map_err (λ e. WireDeskError.protocol (cobs_decode e)) (Cobs.decode frame)
    packet ← from_bytes checksum raw
    ok (some packet)

  pop_frame : FrameReader → List Bytes → FrameReader × Fallible (Option Packet)
  pop_frame r [] = (r, ok none)
  pop_frame r (frame ∷ rest) = (record r { ready = rest }, decode_frame frame)

  unfoldable pub next_packet : FrameReader → FrameReader × Fallible (Option Packet)
  unfolding pop_frame
  next_packet r =
      if ltb 0 r.oversize_dropped
      then (
        record r { oversize_dropped = 0 },
        err (WireDeskError.protocol (frame_too_large r.oversize_dropped)),
      )
      else pop_frame r r.ready
