-- ===== src/Protocol/Packet/Tests.antt =====
-- Runs of the packet codec, and the claims at a concrete packet. The checksum here is a sum.
use wiredesk.Base.{ℕ, ◌+◌, ◌%◌, ◌<◌, ◌≡◌, refl, [], ◌∷◌, ◌++◌, arith}
use wiredesk.Base.Bytes.{Bytes}
use wiredesk.Base.Result.{ok, err}
use wiredesk.Core.Error.{WireDeskError, crc_mismatch}
use wiredesk.Protocol.Message.{Message, msg_type, needs_ack, to_u8, try_from}
use wiredesk.Protocol.Message.Serialize.{serialize}
use wiredesk.Protocol.Message.Deserialize.{deserialize}
use wiredesk.Protocol.Packet.{flags_of, new, to_bytes, from_bytes}
use wiredesk.Protocol.Packet.RoundTrip.{from_bytes-to_bytes}
use wiredesk.Protocol.Packet.Checked.{IsIntact, from_bytes-IsIntact}

total : Bytes → ℕ
total [] = 0
total (b ∷ bs) = b + total bs

sum16 : Bytes → ℕ
unfolding total
sum16 bytes = total bytes % 65536

sum16-lt : (bytes : Bytes) → sum16 bytes < 65536
unfolding sum16
sum16-lt bytes = omega arith

abbrev ack_bytes : Bytes
ack_bytes = 0x57 ∷ 0x44 ∷ 0x22 ∷ 0 ∷ 5 ∷ 0 ∷ 2 ∷ 0 ∷ 7 ∷ 1 ∷ 0xcc ∷ 0 ∷ []

to_bytes-ack : to_bytes sum16 (new (Message.clip_ack 263) 5) ≡ ok ack_bytes
unfolding to_bytes new sum16 serialize to_u8 flags_of msg_type needs_ack
to_bytes-ack = refl

from_bytes-ack : from_bytes sum16 ack_bytes ≡ ok (new (Message.clip_ack 263) 5)
unfolding from_bytes new sum16 deserialize try_from msg_type flags_of needs_ack
from_bytes-ack = refl

from_bytes-bad_sum :
    from_bytes sum16 (0x57 ∷ 0x44 ∷ 0x22 ∷ 0 ∷ 5 ∷ 0 ∷ 2 ∷ 0 ∷ 8 ∷ 1 ∷ 0xcc ∷ 0 ∷ [])
    ≡ err (WireDeskError.protocol (crc_mismatch 0xcc 0xcd))
unfolding from_bytes sum16 try_from
from_bytes-bad_sum = refl

from_bytes-to_bytes_example :
    (bytes : Bytes) × (to_bytes sum16 (new (Message.clip_ack 263) 5) ≡ ok bytes)
    × ((rest : Bytes) → from_bytes sum16 (bytes ++ rest) ≡ ok (new (Message.clip_ack 263) 5))
unfolding serialize
from_bytes-to_bytes_example =
    from_bytes-to_bytes sum16 sum16-lt (Message.clip_ack 263) 5 (omega arith) tt (omega arith)
      (omega arith)

from_bytes-IsIntact_example : IsIntact sum16 ack_bytes (new (Message.clip_ack 263) 5)
from_bytes-IsIntact_example =
    from_bytes-IsIntact sum16 ack_bytes (omega arith) (new (Message.clip_ack 263) 5) from_bytes-ack
