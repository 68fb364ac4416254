-- ===== src/Transport/Framing/Tests.antt =====
-- Runs of the reader, and the claims at concrete streams. The checksum here is constant.
use wiredesk.Base.{ℕ, ◌<◌, ◌≡◌, refl, true, List, [], ◌∷◌, ◌++◌, some, map, length, arith}
use wiredesk.Base.Bytes.{Bytes}
use wiredesk.Base.Result.{ok, err}
use wiredesk.Core.Error.{WireDeskError, frame_too_large}
use wiredesk.Protocol.Cobs
use wiredesk.Protocol.Message.{Message, msg_type, needs_ack, to_u8}
use wiredesk.Protocol.Message.Serialize.{serialize}
use wiredesk.Protocol.Packet
use wiredesk.Protocol.Packet.{Packet, to_bytes, flags_of}
use wiredesk.Transport.Framing.{
  FrameReader, new, feed, feed_byte, end_frame, push_byte, encode_frame, next_packet,
}
use wiredesk.Transport.Framing.Invariant.{IsReader, here, next, received, asked, Reach-IsReader}
use wiredesk.Transport.Framing.Resync.{IsIdle, feed_frame}
use wiredesk.Transport.Framing.Delivery.{IsSendable, nothing, packet, drain, feed_all, drain-Sent}

abbrev constant : Bytes → ℕ
constant bytes = 0x1234

constant-lt : (bytes : Bytes) → constant bytes < 65536
constant-lt bytes = omega arith

feed-noise : (feed new (9 ∷ 0 ∷ 0 ∷ 7 ∷ 8 ∷ [])).ready ≡ (9 ∷ 0 ∷ []) ∷ []
unfolding feed_byte end_frame push_byte
feed-noise = refl

abbrev skipping : FrameReader
skipping = record { partial = []; resyncing = true; ready = []; oversize_dropped = 1 }

next_packet-oversize :
    (next_packet constant skipping).1 ≡ err (WireDeskError.protocol (frame_too_large 1))
unfolding next_packet
next_packet-oversize = refl

Reach-IsReader_example : IsReader (next_packet constant (feed new (9 ∷ 0 ∷ []))).0
Reach-IsReader_example =
    Reach-IsReader constant (next (next here (received new (9 ∷ 0 ∷ []))) (asked _))

skipping-IsReader : IsReader skipping
skipping-IsReader = record {
  bounded = omega arith;
  nonzero = tt;
  discarded = λ e. refl;
  frames = tt;
}

feed_frame_example :
    (feed skipping (0 ∷ ((7 ∷ 8 ∷ []) ++ 0 ∷ [])) ≡ record (feed_byte skipping 0) {
      ready = (feed_byte skipping 0).ready ++ ((7 ∷ 8 ∷ []) ++ 0 ∷ []) ∷ [];
    })
    × IsIdle (feed skipping (0 ∷ ((7 ∷ 8 ∷ []) ++ 0 ∷ [])))
feed_frame_example =
    feed_frame skipping (7 ∷ 8 ∷ []) skipping-IsReader (omega arith) (omega arith) (omega arith)

abbrev beat : Packet
beat = Packet.new Message.heartbeat 5

abbrev ack : Packet
ack = Packet.new (Message.clip_ack 7) 6

abbrev beat_frame : Bytes
beat_frame = 0 ∷ 4 ∷ 0x57 ∷ 0x44 ∷ 0x30 ∷ 2 ∷ 5 ∷ 1 ∷ 1 ∷ 3 ∷ 0x34 ∷ 0x12 ∷ 0 ∷ []

abbrev ack_frame : Bytes
ack_frame = 0 ∷ 4 ∷ 0x57 ∷ 0x44 ∷ 0x22 ∷ 2 ∷ 6 ∷ 2 ∷ 2 ∷ 2 ∷ 7 ∷ 3 ∷ 0x34 ∷ 0x12 ∷ 0 ∷ []

encode_frame-beat : encode_frame constant beat ≡ ok beat_frame
unfolding encode_frame to_bytes serialize Packet.new to_u8 msg_type flags_of needs_ack Cobs.encode
encode_frame-beat = refl

encode_frame-ack : encode_frame constant ack ≡ ok ack_frame
unfolding encode_frame to_bytes serialize Packet.new to_u8 msg_type flags_of needs_ack Cobs.encode
encode_frame-ack = refl

beat-IsSendable : IsSendable beat
unfolding Packet.new serialize
beat-IsSendable = record {
  made = refl;
  ranges = tt;
  carries = tt;
  numbered = omega arith;
  size = omega arith;
}

ack-IsSendable : IsSendable ack
unfolding Packet.new serialize
ack-IsSendable = record {
  made = refl;
  ranges = omega arith;
  carries = tt;
  numbered = omega arith;
  size = omega arith;
}

abbrev blocks : List Bytes
blocks =
    (0 ∷ 4 ∷ 0x57 ∷ [])
    ∷ (0x44 ∷ 0x30 ∷ 2 ∷ 5 ∷ 1 ∷ 1 ∷ 3 ∷ 0x34 ∷ 0x12 ∷ [])
    ∷ (0 ∷ ack_frame)
    ∷ []

drain-Sent_example :
    drain constant (length (beat ∷ ack ∷ [])) (feed_all new blocks)
    ≡ map (λ p. ok (some p)) (beat ∷ ack ∷ [])
drain-Sent_example =
    drain-Sent constant constant-lt (beat ∷ ack ∷ []) (beat_frame ++ (ack_frame ++ [])) blocks
      (beat-IsSendable, (ack-IsSendable, tt))
      (packet encode_frame-beat (packet encode_frame-ack nothing)) refl
