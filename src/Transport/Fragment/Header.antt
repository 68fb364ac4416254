-- ===== src/Transport/Fragment/Header.antt =====
-- The chunk header on the wire.
use wiredesk.Base.{suc, ◌<◌, ◌≡◌, refl, ◌++◌, le→ltb, length, drop, arith}
use wiredesk.Base.Bytes.{Bytes, from_le-le_bytes}
use wiredesk.Base.Result.{ok}
use wiredesk.Transport.Fragment.{ChunkHeader, to_bytes, from_bytes}

-- A header that is read back: a 16-bit id, and an index below the total.
pub record IsHeader (h : ChunkHeader) : Type 0 where
  pub id : h.packet_id < 65536
  pub index : h.chunk_idx < h.total_chunks

-- The header of a chunk is read back as it was written, whatever payload follows it.
pub from_bytes-header :
    (h : ChunkHeader) (payload : Bytes)
    → IsHeader h
    → (from_bytes (to_bytes h ++ payload) ≡ ok h) × (drop 4 (to_bytes h ++ payload) ≡ payload)
unfolding from_bytes to_bytes
from_bytes-header h payload v = (
  rw
      (
        from_le-le_bytes 2 h.packet_id v.id,
        le→ltb (suc (suc (suc (suc (length payload))))) 4 (omega arith),
      )
      (ground arith),
  refl,
)
