-- ===== src/Transport/Serial/Source.antt =====
-- The bytes of `ByteSource`, against what the port hands over.
use wiredesk.Base.{◌≡◌, refl, List, [], ◌∷◌, ◌++◌, map, none, some, ◌⊎◌, inl, inr}
use wiredesk.Base.Bytes.{Bytes}
use wiredesk.Transport.Serial.{Read, block, timed_out, failed, Arrival, byte, silent, broken, next}

-- What the reads of a port amount to, byte by byte. A read that hands over nothing is a pause.
abbrev pub arrivals : List Read → List Arrival
arrivals [] = []
arrivals (block [] ∷ reads) = silent ∷ arrivals reads
arrivals (block (b ∷ bs) ∷ reads) = byte b ∷ (map byte bs ++ arrivals reads)
arrivals (timed_out ∷ reads) = silent ∷ arrivals reads
arrivals (failed ∷ reads) = broken ∷ arrivals reads

abbrev pub pending : Bytes → List Read → List Arrival
pending buf reads = map byte buf ++ arrivals reads

-- Whatever stands in the buffer and however the port cuts the bytes into blocks, `next` gives the
-- pending arrivals from first to last: it waits where there is none, and otherwise gives the first
-- and keeps the others.
pub next-pending :
    (buf : Bytes) (reads : List Read)
    → ((next buf reads ≡ none) × (pending buf reads ≡ []))
      ⊎ ((a : Arrival) × (buf' : Bytes) × (reads' : List Read) × (next buf reads
            ≡ some (a, buf', reads'))
          × (pending buf reads ≡ a ∷ pending buf' reads'))
unfolding next
next-pending (b ∷ buf) reads = inr (byte b, buf, reads, refl, refl)
next-pending [] [] = inl (refl, refl)
next-pending [] (block [] ∷ reads) = inr (silent, [], reads, refl, refl)
next-pending [] (block (b ∷ bs) ∷ reads) = inr (byte b, bs, reads, refl, refl)
next-pending [] (timed_out ∷ reads) = inr (silent, [], reads, refl, refl)
next-pending [] (failed ∷ reads) = inr (broken, [], reads, refl, refl)
