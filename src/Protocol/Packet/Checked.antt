-- ===== src/Protocol/Packet/Checked.antt =====
-- What `from_bytes` has checked of a packet that it returns, whoever sent the bytes.
use wiredesk.Base.{
  ℕ, ◌+◌, ◌≤◌, ◌≡◌, refl, sym, ◌&&◌, inl, inr, ltb, ltb→le, ◌==◌, length, take, drop, All-take,
  All-drop, arith, Bool-cases,
}
use wiredesk.Base.Bytes.{Bytes, IsByte, AreBytes}
use wiredesk.Base.Result.{ok, Ensures, Ensures-ok, Result-cases}
use wiredesk.Protocol.Message.{MessageType, msg_type, to_u8, try_from}
use wiredesk.Protocol.Message.Deserialize.{deserialize, byte_at, u16_at}
use wiredesk.Protocol.Message.Sound.{Answers, deserialize_sound}
use wiredesk.Protocol.Message.Tags.{try_from-to_u8_iff}
use wiredesk.Protocol.Packet.{Packet, from_bytes, read_body}

-- The magic, the opcode of the message, the declared length and the checksum over header and
-- payload are right; the flags and the number are the header's, the message is the payload's.
pub record IsIntact (checksum : Bytes → ℕ) (bytes : Bytes) (p : Packet) : Type 0 where
  pub magic : (byte_at bytes 0 ≡ 0x57) × (byte_at bytes 1 ≡ 0x44)
  pub opcode : byte_at bytes 2 ≡ to_u8 p.tag
  pub type_agrees : msg_type p.message ≡ p.tag
  pub complete : 10 + u16_at bytes 6 ≤ length bytes
  pub sum : u16_at bytes (8 + u16_at bytes 6) ≡ checksum (take (8 + u16_at bytes 6) bytes)
  pub flags : p.flags ≡ byte_at bytes 3
  pub seq : p.seq ≡ u16_at bytes 4
  pub content : Answers p.tag p.message
  pub read : deserialize p.tag (take (u16_at bytes 6) (drop 8 bytes)) ≡ ok p.message

module _ (checksum : Bytes → ℕ) (bytes : Bytes) (h : AreBytes bytes) where
  module _ (t : MessageType) (m0 : byte_at bytes 0 ≡ 0x57) (m1 : byte_at bytes 1 ≡ 0x44)
      (tag : to_u8 t ≡ byte_at bytes 2) where
    read_body-IsIntact : Ensures (IsIntact checksum bytes) (read_body checksum bytes t)
    unfolding read_body
    read_body-IsIntact = elim (Bool-cases (ltb (length bytes) (8 + u16_at bytes 6 + 2))) [
      | inl short ↦ rw short tt
      | inr long ↦
          elim (Bool-cases
            (u16_at bytes (8 + u16_at bytes 6) == checksum (take (8 + u16_at bytes 6) bytes))) [
              | inr bad ↦ rw (long, bad) tt
              | inl good ↦
                  rw (long, good)
                    (elim (Result-cases (deserialize t payload)) [
                      | inr (e, x) ↦ rw x tt
                      | inl (m, x) ↦
                          let content : Answers t m =
                            deserialize_sound t payload payload-AreBytes x in
                          rw x (record {
                            magic = (m0, m1);
                            opcode = sym tag;
                            type_agrees = content.0;
                            complete = omega (arith, ltb→le _ _ long);
                            sum = ground arith;
                            flags = refl;
                            seq = refl;
                            content = content;
                            read = x;
                          })
                    ])
            ]
    ]
      where
        payload : Bytes
        payload = take (u16_at bytes 6) (drop 8 bytes)

        payload-AreBytes : AreBytes payload
        payload-AreBytes =
            All-take IsByte (u16_at bytes 6) (drop 8 bytes) (All-drop IsByte 8 bytes h)

  from_bytes-Ensures : Ensures (IsIntact checksum bytes) (from_bytes checksum bytes)
  unfolding from_bytes
  from_bytes-Ensures = elim (Bool-cases (ltb (length bytes) 10)) [
    | inl short ↦ rw short tt
    | inr long ↦ elim (Bool-cases (byte_at bytes 0 == 0x57 && byte_at bytes 1 == 0x44)) [
      | inr bad ↦ rw (long, bad) tt
      | inl good ↦ elim (Result-cases (try_from (byte_at bytes 2))) [
        | inr (e, x) ↦ rw (long, good, x) tt
        | inl (t, x) ↦
            rw (long, good, x)
              (read_body-IsIntact t (ground arith) (ground arith)
                ((try_from-to_u8_iff (byte_at bytes 2) t).0 x))
      ]
    ]
  ]

  -- Corruption does not pass: a packet that `from_bytes` returns for bytes from the line has the
  -- magic, a known opcode that is its message's own type, a length that the bytes cover, and the
  -- checksum that is computed over its header and payload; its message is what its payload says,
  -- and lies within its types.
  pub from_bytes-IsIntact :
      (p : Packet) → from_bytes checksum bytes ≡ ok p → IsIntact checksum bytes p
  from_bytes-IsIntact p = Ensures-ok (IsIntact checksum bytes) _ from_bytes-Ensures
