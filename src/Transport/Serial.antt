-- ===== src/Transport/Serial.antt =====
-- crates/wiredesk-transport/src/serial.rs: packets read off the serial port. The port is the list
-- of what its `read` calls hand over; `next` walks it byte by byte, and a frame is read off the
-- results of `next`, in order. A call that the list leaves without a result is still waiting.
pub mod Source
pub mod Frames
pub mod Jam
mod Tests
use wiredesk.Base.{
  ℕ, zero, suc, ◌+◌, Bool, true, false, List, [], ◌∷◌, ◌++◌, Option, none, some, ltb, ◌==◌,
  if◌then◌else◌, length,
}
use wiredesk.Base.Bytes.{Bytes}
use wiredesk.Base.Result.{Result, ok, err, ◌>>=◌, map_err}
use wiredesk.Core.Error.{
  WireDeskError, Fallible, serial_read, recv_timeout, partial_abandoned, frame_over_limit,
  cobs_decode,
}
use wiredesk.Protocol.Cobs.{DecodeError, decode, encode}
use wiredesk.Protocol.Packet.{Packet, from_bytes, to_bytes}

abbrev pub max_partial_timeouts : ℕ
max_partial_timeouts = 500

abbrev pub max_frame_size : ℕ
max_frame_size = 8192

-- What one `read` of the port gives.
pub data Read : Type 0 where
  block : Bytes → Read
  timed_out failed : Read

-- What one `ByteSource::next` gives: `silent` is both `Ok(None)` and the timeout, which the frame
-- loop treats alike.
pub data Arrival : Type 0 where
  byte : ℕ → Arrival
  silent broken : Arrival

-- `ByteSource::next`. The buffer is the bytes from `pos` to `len`; `none` is a `read` that has not
-- returned.
unfoldable pub next : Bytes → List Read → Option (Arrival × Bytes × List Read)
next (b ∷ buf) reads = some (byte b, buf, reads)
next [] [] = none
next [] (block [] ∷ reads) = some (silent, [], reads)
next [] (block (b ∷ bs) ∷ reads) = some (byte b, bs, reads)
next [] (timed_out ∷ reads) = some (silent, [], reads)
next [] (failed ∷ reads) = some (broken, [], reads)

pub record Reader : Type 0 where
  pub read_buf : Bytes
  pub partial_timeouts : ℕ

-- The reader of a port that has just been opened.
abbrev pub opened : Reader
opened = record { read_buf = []; partial_timeouts = 0 }

-- `returned`, or `waiting` for the port.
pub data Outcome : Type 0 where
  returned : Fallible Packet → Outcome
  waiting : Outcome

-- What a call leaves: the reader, the arrivals it has not consumed, its outcome.
pub record Call : Type 0 where
  pub reader : Reader
  pub rest : List Arrival
  pub outcome : Outcome

abbrev pub is_empty : Bytes → Bool
is_empty [] = true
is_empty (b ∷ bs) = false

-- The inner loop after an oversize frame: it skips to the next delimiter.
unfoldable pub skip : Reader → List Arrival → Call
skip r [] = record { reader = r; rest = []; outcome = waiting }
skip r (byte b ∷ rest) =
    let more = skip r rest in
    if b == 0
    then record {
      reader = r;
      rest = rest;
      outcome = returned (err (WireDeskError.protocol frame_over_limit));
    }
    else more
skip r (silent ∷ rest) = record {
  reader = r;
  rest = rest;
  outcome = returned (err (WireDeskError.protocol frame_over_limit));
}
skip r (broken ∷ rest) = record {
  reader = r;
  rest = rest;
  outcome = returned (err (WireDeskError.protocol frame_over_limit));
}

module _ (compute : Bytes → ℕ) where
  -- What follows the loop: the buffer holds a frame and its delimiter. The buffer is cleared only
  -- once the frame has been decoded.
  unfoldable pub settle : Result DecodeError Bytes → Reader → List Arrival → Call
  settle (err e) r rest = record {
    reader = record r { partial_timeouts = 0 };
    rest = rest;
    outcome = returned (err (WireDeskError.protocol (cobs_decode e)));
  }
  settle (ok raw) r rest = record {
    reader = opened;
    rest = rest;
    outcome = returned (from_bytes compute raw);
  }

  unfoldable pub decode_held : Reader → List Arrival → Call
  unfolding settle
  decode_held r rest = settle (decode r.read_buf) r rest

  -- `read_frame`.
  unfoldable pub read_frame : Reader → List Arrival → Call
  read_frame r [] = record { reader = r; rest = []; outcome = waiting }
  read_frame r (broken ∷ rest) = record {
    reader = r;
    rest = rest;
    outcome = returned (err (WireDeskError.transport serial_read));
  }
  read_frame r (silent ∷ rest) =
      let more = read_frame (record r { partial_timeouts = r.partial_timeouts + 1 }) rest in
      if is_empty r.read_buf
      then record {
        reader = r;
        rest = rest;
        outcome = returned (err (WireDeskError.transport recv_timeout));
      }
      else if ltb max_partial_timeouts (r.partial_timeouts + 1)
      then record {
        reader = opened;
        rest = rest;
        outcome = returned (err (WireDeskError.transport partial_abandoned));
      }
      else more
  read_frame r (byte b ∷ rest) =
      let pushed = record r { read_buf = r.read_buf ++ b ∷ [] } in
      let skipped = read_frame r rest in
      let more = read_frame pushed rest in
      if b == 0
      then (if is_empty r.read_buf then skipped else decode_held pushed rest)
      else if ltb max_frame_size (length pushed.read_buf)
      then skip (record r { read_buf = [] }) rest
      else more

  -- The bytes that `send` writes: a delimiter, and the frame.
  unfoldable pub send : Packet → Fallible Bytes
  send packet = to_bytes compute packet >>= λ raw. ok (0 ∷ encode raw)
