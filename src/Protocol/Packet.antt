-- ===== src/Protocol/Packet.antt =====
-- crates/wiredesk-protocol/src/packet.rs and crc.rs. The checksum is that of the `crc` crate,
-- `Crc::<u16>::checksum`: a parameter, whose values are 16-bit words where that matters.
pub mod RoundTrip
pub mod Checked
mod Tests
use wiredesk.Base.{
  ℕ, ◌+◌, ◌%◌, Bool, true, false, not, ◌&&◌, List, [], ◌∷◌, ◌++◌, ltb, ◌==◌, if◌then◌else◌, length,
  take, drop,
}
use wiredesk.Base.Bytes.{Bytes}
use wiredesk.Base.Result.{Result, ok, err, ◌>>=◌}
use wiredesk.Core.Error.{
  Fallible, Detail, WireDeskError, payload_too_large, packet_too_short, bad_magic, packet_truncated,
  crc_mismatch,
}
use wiredesk.Protocol.Message.{Message, MessageType, msg_type, needs_ack, to_u8, try_from}
use wiredesk.Protocol.Message.Serialize.{serialize, u16_bytes}
use wiredesk.Protocol.Message.Deserialize.{deserialize, byte_at, u16_at}

abbrev pub magic_0 : ℕ
magic_0 = 0x57

abbrev pub magic_1 : ℕ
magic_1 = 0x44

abbrev pub header_size : ℕ
header_size = 8

abbrev pub crc_size : ℕ
crc_size = 2

abbrev pub max_payload : ℕ
max_payload = 4096

-- `PacketFlags` is its byte.
abbrev pub ack_required : ℕ
ack_required = 0x01

unfoldable pub flags_of : Message → ℕ
flags_of msg = if needs_ack msg then ack_required else 0

pub record Packet : Type 0 where
  pub tag : MessageType
  pub flags : ℕ
  pub seq : ℕ
  pub message : Message

-- `Packet::new`.
unfoldable pub new : Message → ℕ → Packet
new message seq = record {
  tag = msg_type message;
  flags = flags_of message;
  seq = seq;
  message = message;
}

abbrev refuse {ℓ} : {A : Type ℓ} → Detail → Result WireDeskError A
refuse d = err (WireDeskError.protocol d)

module _ (checksum : Bytes → ℕ) where
  -- `crc::compute`.
  abbrev pub compute : Bytes → ℕ
  compute bytes = checksum bytes

  -- `crc::verify`.
  unfoldable pub verify : Bytes → ℕ → Bool
  verify bytes expected = compute bytes == expected

  -- The bytes that the checksum covers: the header and the payload.
  abbrev pub covered : Packet → Bytes → Bytes
  covered p payload =
      magic_0
      ∷ magic_1
      ∷ to_u8 p.tag
      ∷ p.flags
      ∷ (u16_bytes p.seq ++ (u16_bytes (length payload % 65536) ++ payload))

  unfoldable pub to_bytes : Packet → Fallible Bytes
  to_bytes p =
      let payload = serialize p.message in
      let buf = covered p payload in
      if ltb max_payload (length payload)
      then refuse (payload_too_large (length payload) max_payload)
      else ok (buf ++ u16_bytes (compute buf))

  -- Behind the length and magic checks: the header's fields, the checksum, the message.
  unfoldable pub read_body : Bytes → MessageType → Fallible Packet
  read_body bytes tag =
      let payload_len = u16_at bytes 6 in
      let expected_total = header_size + payload_len + crc_size in
      let crc_offset = header_size + payload_len in
      let received_crc = u16_at bytes crc_offset in
      let computed_crc = compute (take crc_offset bytes) in
      let message = deserialize tag (take payload_len (drop header_size bytes)) in
      if ltb (length bytes) expected_total
      then refuse (packet_truncated (length bytes) expected_total)
      else if not (received_crc == computed_crc)
      then refuse (crc_mismatch received_crc computed_crc)
      else (message >>= λ m.
          ok (record { tag = tag; flags = byte_at bytes 3; seq = u16_at bytes 4; message = m }))

  unfoldable pub from_bytes : Bytes → Fallible Packet
  unfolding read_body
  from_bytes bytes =
      if ltb (length bytes) (header_size + crc_size)
      then refuse (packet_too_short (length bytes))
      else if not (byte_at bytes 0 == magic_0 && byte_at bytes 1 == magic_1)
      then refuse (bad_magic (byte_at bytes 0) (byte_at bytes 1))
      else (try_from (byte_at bytes 2) >>= read_body bytes)
