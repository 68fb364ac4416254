-- ===== src/Protocol/Packet/RoundTrip.antt =====
-- `from_bytes` undoes `to_bytes`.
use wiredesk.Base.{
  ℕ, suc, ◌+◌, ◌%◌, ◌≤◌, ◌<◌, ◌≡◌, refl, ap, ◌∙◌, ◌++◌, append_assoc, le→ltb, ==_iff, length,
  length-append, take-length_append, drop-length_append, arith,
}
use wiredesk.Base.Bytes.{Bytes, le_bytes, from_le, from_le-le_bytes}
use wiredesk.Base.Result.{ok, ◌>>=◌}
use wiredesk.Protocol.Message.{Message, to_u8, try_from}
use wiredesk.Protocol.Message.Serialize.{serialize}
use wiredesk.Protocol.Message.Deserialize.{deserialize}
use wiredesk.Protocol.Message.Ranges.{IsMessage, Carries, IsU16}
use wiredesk.Protocol.Message.RoundTrip.{deserialize-serialize}
use wiredesk.Protocol.Message.Tags.{try_from-to_u8_iff}
use wiredesk.Protocol.Packet.{Packet, new, covered, to_bytes, from_bytes, read_body, max_payload}

module _ (checksum : Bytes → ℕ) (is_u16 : (bytes : Bytes) → checksum bytes < 65536) where
  -- The checks behind the opcode pass on a packet's own bytes, whatever follows them.
  read_body-frame :
      (p : Packet) (payload rest : Bytes)
      → IsU16 p.seq
      → length payload ≤ 4096
      → read_body checksum
          (covered checksum p payload
            ++ (le_bytes 2 (checksum (covered checksum p payload)) ++ rest))
          p.tag
        ≡ (deserialize p.tag payload >>= λ m. ok (record p { message = m }))
  unfolding read_body
  read_body-frame p payload rest s h =
      rw (from_le-le_bytes 2 p.seq s, len, eight)
        (rw (
          drop-length_append payload (word ++ rest),
          take-length_append payload (word ++ rest),
          from_le-le_bytes 2 sum (is_u16 (covered checksum p payload)),
          (==_iff sum sum).1 refl,
          le→ltb _ _ size,
        ))
    where
      sum : ℕ
      sum = checksum (covered checksum p payload)

      word : Bytes
      word = le_bytes 2 sum

      len : from_le (le_bytes 2 (length payload % 65536)) ≡ length payload
      len = omega arith

      eight : 8 + length payload ≡ suc (suc (suc (suc (suc (suc (suc (suc (length payload))))))))
      eight = omega arith

      size :
          suc (suc (suc (suc (suc (suc (suc (suc (length payload)))))))) + 2
          ≤ suc (suc (suc (suc (suc (suc (suc (suc (length (payload ++ (word ++ rest))))))))))
      size = omega (arith, length-append payload (word ++ rest))

  -- A packet that `to_bytes` writes is read back as it was, and what follows it is ignored.
  from_bytes-covered :
      (p : Packet) (payload rest : Bytes)
      → IsU16 p.seq
      → length payload ≤ 4096
      → from_bytes checksum (
          covered checksum p payload
          ++ (le_bytes 2 (checksum (covered checksum p payload)) ++ rest))
        ≡ (deserialize p.tag payload >>= λ m. ok (record p { message = m }))
  unfolding from_bytes
  from_bytes-covered p payload rest s h =
      let tag : try_from (to_u8 p.tag) ≡ ok p.tag = (try_from-to_u8_iff _ p.tag).1 refl in
      rw (le→ltb _ _ size, tag) (read_body-frame p payload rest s h)
    where
      word : Bytes
      word = le_bytes 2 (checksum (covered checksum p payload))

      size :
          8 + 2 ≤ suc (suc (suc (suc (suc (suc (suc (suc (length (payload ++ (word ++ rest))))))))))
      size = omega (arith, length-append payload (word ++ rest))

  -- The bytes that go out for a packet whose payload fits.
  to_bytes-fits :
      (p : Packet)
      → length (serialize p.message) ≤ 4096
      → to_bytes checksum p
        ≡ ok (
            covered checksum p (serialize p.message)
            ++ le_bytes 2 (checksum (covered checksum p (serialize p.message))))
  unfolding to_bytes
  to_bytes-fits p h = rw (le→ltb max_payload (length (serialize p.message)) h)

  -- For a checksum of 16 bits: a message within its types, with its texts in their limits and at
  -- most 4096 bytes of payload, is sent under any sequence number, and whatever stands behind the
  -- packet's bytes, `from_bytes` gives the packet back: type, flags, number and message.
  pub from_bytes-to_bytes :
      (m : Message) (seq : ℕ)
      → IsMessage m
      → Carries m
      → IsU16 seq
      → length (serialize m) ≤ 4096
      → (bytes : Bytes) × (to_bytes checksum (new m seq) ≡ ok bytes)
        × ((rest : Bytes) → from_bytes checksum (bytes ++ rest) ≡ ok (new m seq))
  unfolding new
  from_bytes-to_bytes m seq h c s size = (buf ++ word, to_bytes-fits (new m seq) size, back)
    where
      buf : Bytes
      buf = covered checksum (new m seq) (serialize m)

      word : Bytes
      word = le_bytes 2 (checksum buf)

      back : (rest : Bytes) → from_bytes checksum ((buf ++ word) ++ rest) ≡ ok (new m seq)
      back rest =
          ap (from_bytes checksum) (append_assoc buf word rest)
          ∙ from_bytes-covered (new m seq) (serialize m) rest s size
          ∙ rw (deserialize-serialize m h c)

  -- The length of what goes out.
  pub length-to_bytes :
      (p : Packet) {bytes : Bytes} → to_bytes checksum p ≡ ok bytes → length bytes ≤ 4106
  unfolding to_bytes
  length-to_bytes p {bytes} e = ground (
    arith,
    length-append (serialize p.message)
        (le_bytes 2 (checksum (covered checksum p (serialize p.message)))),
  )
