-- ===== src/Transport/Fragment/Tests.antt =====
-- Runs of the chunk layer, and the claims at concrete writes.
use wiredesk.Base.{ℕ, zero, suc, ◌<◌, ◌≡◌, ◌⊎◌, refl, List, [], ◌∷◌, some, none, arith, get_elem?}
use wiredesk.Base.Bytes.{Bytes}
use wiredesk.Base.Result.{ok, err}
use wiredesk.Transport.Fragment.{
  ChunkHeader, new, returned, to_bytes, split_packet, writes, total_chunks_of, too_many_chunks,
}
use wiredesk.Transport.Fragment.Split.{IsSplit, write_of, split_packet-IsSplit}
use wiredesk.Transport.Fragment.Reassembly.{outcomes, after}
use wiredesk.Transport.Fragment.Delivery.{sent_at, feed-split_packet}

abbrev header : ChunkHeader
header = record { packet_id = 300; chunk_idx = 1; total_chunks = 3 }

abbrev payload : Bytes
payload = 1 ∷ 2 ∷ 3 ∷ 4 ∷ 5 ∷ []

split_packet-IsSplit_example :
    ((255 < total_chunks_of payload 2)
      × (split_packet 7 payload 2 ≡ some (err (too_many_chunks (total_chunks_of payload 2)))))
    ⊎ ((ws : List Bytes) × (split_packet 7 payload 2 ≡ some (ok ws)) × IsSplit 7 payload 2 ws)
split_packet-IsSplit_example = split_packet-IsSplit 7 payload 2 (omega arith)

abbrev three : List Bytes
three = (7 ∷ 0 ∷ 0 ∷ 3 ∷ 1 ∷ 2 ∷ []) ∷ (7 ∷ 0 ∷ 1 ∷ 3 ∷ 3 ∷ 4 ∷ []) ∷ (7 ∷ 0 ∷ 2 ∷ 3 ∷ 5 ∷ []) ∷ []

split_packet-three : split_packet 7 payload 2 ≡ some (ok three)
unfolding split_packet writes to_bytes
split_packet-three = refl

abbrev slices : List Bytes
slices = (1 ∷ 2 ∷ []) ∷ (3 ∷ 4 ∷ []) ∷ (5 ∷ []) ∷ []

three-slices :
    (i : ℕ) (piece : Bytes)
    → get_elem? slices i ≡ some piece
    → get_elem? three i ≡ some (write_of 7 3 i piece)
unfolding to_bytes
three-slices zero piece e =
    let same : 1 ∷ 2 ∷ [] ≡ piece = cc e in λ k. some (write_of 7 3 0 (same k))
three-slices (suc zero) piece e =
    let same : 3 ∷ 4 ∷ [] ≡ piece = cc e in λ k. some (write_of 7 3 1 (same k))
three-slices (suc (suc zero)) piece e =
    let same : 5 ∷ [] ≡ piece = cc e in λ k. some (write_of 7 3 2 (same k))
three-slices (suc (suc (suc i))) piece e = cc

three-IsSplit : IsSplit 7 payload 2 three
three-IsSplit = record {
  pieces = slices;
  covers = refl;
  bounded = (omega arith, (omega arith, (omega arith, tt)));
  count = refl;
  some_piece = omega arith;
  fits = omega arith;
  content = three-slices;
}

-- The writes arrive out of order, one of them twice.
feed-split_packet_example :
    (outcomes new (sent_at three ((100, 2) ∷ (200, 0) ∷ (300, 2) ∷ (400, 1) ∷ []))
      ≡ returned (ok none)
        ∷ returned (ok none)
        ∷ returned (ok none)
        ∷ returned (ok (some payload))
        ∷ [])
    × ((after new (sent_at three ((100, 2) ∷ (200, 0) ∷ (300, 2) ∷ (400, 1) ∷ []))).slots 7 ≡ none)
feed-split_packet_example =
    feed-split_packet 7 payload 2 three three-IsSplit (omega arith) 100
      ((100, 2) ∷ (200, 0) ∷ (300, 2) ∷ []) 400 1 new refl
      (
        (omega arith, omega arith, omega arith),
        ((omega arith, omega arith, omega arith), ((omega arith, omega arith, omega arith), tt)),
      )
      (omega arith, omega arith, omega arith) refl refl
