-- ===== src/Host/Clipboard/Wire.antt =====
-- What a chunk can be on the wire.
use wiredesk.Base.{
  ℕ, ◌+◌, ◌≤◌, ◌<◌, ◌≡◌, sym, subst, length, length-take, length-drop, take, drop, inl, inr, ltb,
  ltb→le, Bool-cases, arith,
}
use wiredesk.Base.Bytes.{Bytes, AreBytes, word_at-lt}
use wiredesk.Base.Result.{ok, Ensures, Ensures-ok}
use wiredesk.Protocol.Message.{Message, MessageType, msg_type}
use wiredesk.Protocol.Message.Ranges.{IsMessage}
use wiredesk.Protocol.Message.Deserialize.{deserialize, u16_at}
use wiredesk.Protocol.Packet.{Packet, from_bytes}
use wiredesk.Protocol.Packet.Checked.{from_bytes-IsIntact}
use wiredesk.Host.Clipboard.Bounds.{max_chunk_data}

-- The index has 16 bits, and the data fits a packet whose length has 16 bits.
abbrev pub IsClipMessage : Message → Type 0
IsClipMessage (Message.clip_chunk index bytes) = (index < 65536) × (length bytes ≤ max_chunk_data)
IsClipMessage m = Unit {0}

-- A chunk's data is what follows two bytes of the payload.
IsChunkOf : Bytes → Message → Type 0
IsChunkOf payload (Message.clip_chunk index bytes) = length bytes + 2 ≤ length payload
IsChunkOf payload m = Unit {0}

deserialize-IsChunkOf :
    (payload : Bytes) → Ensures (IsChunkOf payload) (deserialize MessageType.clip_chunk payload)
unfolding deserialize IsChunkOf
deserialize-IsChunkOf payload = elim (Bool-cases (ltb (length payload) 2)) [
  | inl t ↦ rw t tt
  | inr n ↦ rw n (omega (arith, length-drop 2 payload, ltb→le (length payload) 2 n))
]

sized :
    (t : MessageType) (m : Message) (payload : Bytes)
    → msg_type m ≡ t
    → deserialize t payload ≡ ok m
    → IsMessage m
    → length payload ≤ 65535
    → IsClipMessage m
unfolding msg_type IsChunkOf
sized t (Message.clip_chunk index bytes) payload a r c l =
    let read = subst (λ t. deserialize t payload ≡ ok (Message.clip_chunk index bytes)) (sym a) r in
    let chunk : length bytes + 2 ≤ length payload =
      Ensures-ok (IsChunkOf payload) _ (deserialize-IsChunkOf payload) read in
    (c.0, omega (arith, chunk))
sized t m payload a r c l = tt

-- Every message that a packet brings, whoever made its bytes.
pub from_bytes-IsClipMessage :
    (checksum : Bytes → ℕ) (raw : Bytes) (packet : Packet)
    → AreBytes raw
    → from_bytes checksum raw ≡ ok packet
    → IsClipMessage packet.message
from_bytes-IsClipMessage checksum raw packet h e =
    let intact = from_bytes-IsIntact checksum raw h packet e in
    let payload = take (u16_at raw 6) (drop 8 raw) in
    sized packet.tag packet.message payload intact.type_agrees intact.read intact.content.1
      (omega (arith, length-take (u16_at raw 6) (drop 8 raw), word_at-lt 2 6 raw h))
