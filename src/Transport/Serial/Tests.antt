-- ===== src/Transport/Serial/Tests.antt =====
-- Runs of the serial reader, and the claims at concrete lines. The checksum here is a constant.
use wiredesk.Base.{ℕ, ◌<◌, ◌≡◌, refl, [], ◌∷◌, ◌++◌, List, map, some, arith}
use wiredesk.Base.Bytes.{Bytes}
use wiredesk.Base.Result.{ok, err}
use wiredesk.Core.Error.{WireDeskError, cobs_decode}
use wiredesk.Protocol.Cobs.{truncated, decode, encode}
use wiredesk.Protocol.Message.{Message, msg_type, needs_ack, to_u8}
use wiredesk.Protocol.Message.Serialize.{serialize}
use wiredesk.Protocol.Packet
use wiredesk.Protocol.Packet.{Packet, flags_of, to_bytes}
use wiredesk.Transport.Framing.Delivery.{IsSendable}
use wiredesk.Transport.Serial.{
  block, timed_out, Arrival, byte, silent, Reader, opened, returned, next, read_frame, send,
}
use wiredesk.Transport.Serial.Frames.{done, arrives, pauses, read_frame-send}
use wiredesk.Transport.Serial.Jam.{IsJammed, Fails, read_frame-jams, read_frame-Fails}

constant : Bytes → ℕ
constant bytes = 0x1234

constant-lt : (bytes : Bytes) → constant bytes < 65536
unfolding constant
constant-lt bytes = omega arith

next-blocks : next [] (block (5 ∷ 6 ∷ []) ∷ timed_out ∷ []) ≡ some (byte 5, 6 ∷ [], timed_out ∷ [])
unfolding next
next-blocks = refl

abbrev beat : Packet
beat = Packet.new Message.heartbeat 5

abbrev tail : Bytes
tail = 0x57 ∷ 0x44 ∷ 0x30 ∷ 2 ∷ 5 ∷ 1 ∷ 1 ∷ 3 ∷ 0x34 ∷ 0x12 ∷ 0 ∷ []

-- The heartbeat arrives with a pause after its third byte.
abbrev line : List Arrival
line = byte 0x57 ∷ silent ∷ map byte (0x44 ∷ 0x30 ∷ 2 ∷ 5 ∷ 1 ∷ 1 ∷ 3 ∷ 0x34 ∷ 0x12 ∷ 0 ∷ [])

send-beat : send constant beat ≡ ok (0 ∷ 4 ∷ tail)
unfolding send to_bytes serialize Packet.new constant to_u8 msg_type flags_of needs_ack encode
send-beat = refl

beat-IsSendable : IsSendable beat
unfolding Packet.new serialize
beat-IsSendable = record {
  made = refl;
  ranges = tt;
  carries = tt;
  numbered = omega arith;
  size = omega arith;
}

read_frame-send_example :
    read_frame constant opened (byte 0 ∷ byte 4 ∷ (line ++ byte 9 ∷ []))
    ≡ record { reader = opened; rest = byte 9 ∷ []; outcome = returned (ok beat) }
read_frame-send_example =
    read_frame-send constant constant-lt beat 4 tail opened 1 line (byte 9 ∷ []) beat-IsSendable
      send-beat
      (arrives (
        pauses (
          arrives (
            arrives (
              arrives
                (arrives (arrives (arrives (arrives (arrives (arrives (arrives done))))))))))))
      refl (omega arith)

-- A frame that has lost its last byte.
abbrev short : Bytes
short = 3 ∷ 7 ∷ []

short-truncated : decode (short ++ 0 ∷ []) ≡ err truncated
unfolding decode
short-truncated = refl

read_frame-jams_example :
    let call = read_frame constant opened (byte 3 ∷ ((byte 7 ∷ byte 0 ∷ []) ++ byte 0 ∷ [])) in
    (call.outcome ≡ returned (err (WireDeskError.protocol (cobs_decode truncated))))
    × (call.rest ≡ byte 0 ∷ [])
    × (call.reader.read_buf ≡ short ++ 0 ∷ [])
    × IsJammed short call.reader
read_frame-jams_example =
    read_frame-jams constant short opened (byte 0 ∷ []) refl (arrives (arrives done))
      (omega arith, (omega arith, tt)) (omega arith) (omega arith) refl (omega arith)
      short-truncated

abbrev jammed : Reader
jammed = record { read_buf = short ++ 0 ∷ []; partial_timeouts = 0 }

-- The whole heartbeat comes next, and fails.
read_frame-Fails_example : Fails short (read_frame constant jammed (map byte (0 ∷ 4 ∷ tail)))
read_frame-Fails_example =
    read_frame-Fails constant (0 ∷ 4 ∷ tail) short jammed
      (record { junk = []; holds = refl; broken_off = short-truncated }) (omega arith)
