-- ===== src/Transport/Fragment/Reassembly.antt =====
-- `feed_chunk_at` over the writes of one packet, in any order and with repetitions.
use wiredesk.Base.{
  ℕ, zero, suc, ◌+◌, ◌-◌, ◌%◌, ◌≤◌, ◌<◌, ◌≡◌, ◌⊎◌, refl, sym, ap, ◌∙◌, subst, Bool, true, false,
  inl, inr, List, [], ◌∷◌, some, none, lt→ltb, ◌==◌, ==_iff, length, get_elem?, set, drop,
  replicate, arith, Bool-cases,
}
use wiredesk.Base.Bytes.{Bytes}
use wiredesk.Base.Result.{ok}
use wiredesk.Transport.Fragment.{
  Slot, ChunkHeader, Reassembler, Outcome, returned, from_bytes, keep_fresh, sweep_expired, update,
  slot_for, store, settle, place, feed_chunk_at,
}
use wiredesk.Transport.Fragment.Header.{from_bytes-header}
use wiredesk.Base.Chunks.{joined, full}
use wiredesk.Transport.Fragment.Split.{write_of}
use wiredesk.Transport.Fragment.Slots.{
  slot_of, marked, full-marked, fresh-slot_of, store-slot_of, gather-masked,
}

-- A history of chunks with their times: what each call returned, and the state behind it.
abbrev pub outcomes : Reassembler → List (ℕ × Bytes) → List Outcome
outcomes r [] = []
outcomes r ((now, bytes) ∷ rest) =
    (feed_chunk_at r now bytes).1 ∷ outcomes (feed_chunk_at r now bytes).0 rest

abbrev pub after : Reassembler → List (ℕ × Bytes) → Reassembler
after r [] = r
after r ((now, bytes) ∷ rest) = after (feed_chunk_at r now bytes).0 rest

-- The marks that arrivals (a time and an index each) leave.
abbrev pub marks : List Bool → List (ℕ × ℕ) → List Bool
marks mask [] = mask
marks mask ((now, i) ∷ rest) = marks (set mask i true) rest

feed_chunk_at-ok :
    (r : Reassembler) (now : ℕ) (bytes : Bytes) (h : ChunkHeader)
    → from_bytes bytes ≡ ok h
    → feed_chunk_at r now bytes ≡ place (sweep_expired r now) now h (drop 4 bytes)
unfolding feed_chunk_at
feed_chunk_at-ok r now bytes h e = rw (e, feed_chunk_at)

place-some :
    (r : Reassembler) (now : ℕ) (h : ChunkHeader) (payload : Bytes) (slot : Slot)
    → store (slot_for (r.slots h.packet_id) now h) h.chunk_idx payload ≡ some slot
    → place r now h payload ≡ settle r h.packet_id slot
unfolding place
place-some r now h payload slot e = rw (e, place)

module _ (id : ℕ) (pieces : List Bytes) (start : ℕ) where
  -- No slot yet and no marks, or a slot that opened at `start` or later and has the marked pieces.
  abbrev pub Holding : Reassembler → List Bool → Type 0
  Holding r mask =
      ((r.slots id ≡ none) × (mask ≡ replicate (length pieces) false))
      ⊎ ((first : ℕ) × (start ≤ first) × (r.slots id ≡ some (slot_of first pieces mask)))

  -- The slot that a chunk finds, within five seconds of `start`.
  found :
      (r : Reassembler) (mask : List Bool) (now : ℕ) (h : ChunkHeader)
      → Holding r mask
      → start ≤ now
      → now < start + 5000
      → h.total_chunks ≡ length pieces
      → (first : ℕ) × (start ≤ first)
        × (slot_for (keep_fresh now (r.slots id)) now h ≡ slot_of first pieces mask)
  unfolding slot_for
  found r mask now h (inl (e, m)) low high t =
      (now, low, rw e (fresh-slot_of now pieces h t ∙ ap (slot_of now pieces) (sym m)))
  found r mask now h (inr (first, f, e)) low high t = (
    first,
    f,
    rw (
      e,
      lt→ltb (now - first) 5000 (omega arith),
      (==_iff (length pieces) h.total_chunks).1 (sym t),
    ),
  )

  complete :
      (mask : List Bool) → length mask ≡ length pieces → (marked mask == length pieces) ≡ full mask
  complete mask e = subst (λ n. (marked mask == n) ≡ full mask) e (full-marked mask)

  module _ (is_u16 : id < 65536) (fits : length pieces ≤ 255) where
    place-settle :
        (r : Reassembler) (mask : List Bool) (now i : ℕ) (piece : Bytes) (h : ChunkHeader)
        (first : ℕ)
        → length mask ≡ length pieces
        → get_elem? pieces i ≡ some piece
        → h.chunk_idx ≡ i
        → slot_for (keep_fresh now (r.slots h.packet_id)) now h ≡ slot_of first pieces mask
        → place (sweep_expired r now) now h piece
          ≡ settle (sweep_expired r now) h.packet_id (slot_of first pieces (set mask i true))
    unfolding sweep_expired
    place-settle r mask now i piece h first e g at slot =
        place-some (sweep_expired r now) now h piece _
          ((λ k. store (slot k) (at k) piece) ∙ store-slot_of first pieces mask i piece e g)

    -- One chunk, up to the question whether the slot is full.
    pub feed_chunk_at-settle :
        (r : Reassembler) (mask : List Bool) (now i : ℕ) (piece : Bytes)
        → Holding r mask
        → length mask ≡ length pieces
        → start ≤ now
        → now < start + 5000
        → i < length pieces
        → get_elem? pieces i ≡ some piece
        → (first : ℕ) × (start ≤ first)
          × (feed_chunk_at r now (write_of id (length pieces) i piece)
              ≡ settle (sweep_expired r now) id (slot_of first pieces (set mask i true)))
    feed_chunk_at-settle r mask now i piece h e low high below g =
        let header : ChunkHeader = record {
          packet_id = id;
          chunk_idx = i % 256;
          total_chunks = length pieces % 256;
        } in
        let read = from_bytes-header header piece (record { id = is_u16; index = omega arith }) in
        let (first, f, slot) = found r mask now header h low high (omega arith) in
        (
          first,
          f,
          feed_chunk_at-ok r now (write_of id (length pieces) i piece) header read.0
              ∙ ap (place (sweep_expired r now) now header) read.1
              ∙ place-settle r mask now i piece header first e g (omega arith) slot,
        )

    pub settle-full :
        (r : Reassembler) (first : ℕ) (mask : List Bool)
        → length mask ≡ length pieces
        → full mask ≡ true
        → settle r id (slot_of first pieces mask)
          ≡ (record { slots = update r.slots id none }, returned (ok (some (joined pieces))))
    unfolding settle
    settle-full r first mask e f = rw (complete mask e ∙ f, gather-masked pieces mask e f)

    pub settle-open :
        (r : Reassembler) (first : ℕ) (mask : List Bool)
        → length mask ≡ length pieces
        → full mask ≡ false
        → settle r id (slot_of first pieces mask) ≡ (
          record { slots = update r.slots id (some (slot_of first pieces mask)) },
          returned (ok none),
        )
    unfolding settle
    settle-open r first mask e f = rw (complete mask e ∙ f)

full-set : (mask : List Bool) (i : ℕ) → full mask ≡ true → full (set mask i true) ≡ true
full-set [] i f = refl
full-set (true ∷ mask) zero f = f
full-set (true ∷ mask) (suc i) f = full-set mask i f
full-set (false ∷ mask) i f = cc

full-marks :
    (arrivals : List (ℕ × ℕ)) (mask : List Bool)
    → full mask ≡ true
    → full (marks mask arrivals) ≡ true
full-marks [] mask f = f
full-marks ((now, i) ∷ rest) mask f = full-marks rest (set mask i true) (full-set mask i f)

-- A mask that is not full in the end is not full before.
pub full-before :
    (arrivals : List (ℕ × ℕ)) (mask : List Bool)
    → full (marks mask arrivals) ≡ false
    → full mask ≡ false
full-before arrivals mask f = elim (Bool-cases (full mask)) [
  | inl t ↦ let u = full-marks arrivals mask t in cc
  | inr e ↦ e
]
