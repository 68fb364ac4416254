-- ===== src/Transport/Fragment/Split.antt =====
-- What `split_packet` writes: the payload's pieces, in order, each behind its header.
use wiredesk.Base.{
  ℕ, zero, suc, ◌+◌, ◌-◌, ◌*◌, ◌/◌, ◌%◌, ◌≤◌, ◌<◌, ◌≡◌, refl, ap, ◌∙◌, false, inl, inr, List, [],
  ◌∷◌, ◌++◌, some, ltb, ltb→lt, ltb→le, ◌==◌, Bool-cases, ◌⊎◌, length, get_elem?, All, arith,
}
use wiredesk.Base.Chunks.{chunks, joined, joined-chunks, length-chunks, chunks-bounded}
use wiredesk.Base.Bytes.{Bytes}
use wiredesk.Base.Result.{ok, err}
use wiredesk.Transport.Fragment.{
  to_bytes, writes, total_chunks_of, write_all, split_packet, too_many_chunks,
}

-- The pieces of a payload: one empty piece for an empty payload.
abbrev pub pieces_of : Bytes → ℕ → List Bytes
pieces_of [] most = [] ∷ []
pieces_of (b ∷ bs) most = chunks (length (b ∷ bs)) most (b ∷ bs)

pub joined-pieces_of :
    (payload : Bytes) (most : ℕ) → 0 < most → joined (pieces_of payload most) ≡ payload
joined-pieces_of [] most p = refl
joined-pieces_of (b ∷ bs) most p = joined-chunks (length (b ∷ bs)) most (b ∷ bs) p (omega arith)

-- The header's total is the number of pieces.
pub length-pieces_of :
    (payload : Bytes) (most : ℕ)
    → 0 < most
    → length (pieces_of payload most) ≡ total_chunks_of payload most
length-pieces_of [] most p = refl
length-pieces_of (b ∷ bs) most p =
    let bounds = length-chunks (length (b ∷ bs)) most (b ∷ bs) p (omega arith) in
    ceil (length (pieces_of (b ∷ bs) most)) (length (b ∷ bs)) most p bounds.0 bounds.1
  where
    ceil : (q n m : ℕ) → 0 < m → n ≤ q * m → q * m < n + m → q ≡ (n + m - 1) / m
    ceil q n m p low high = grind arith

-- The write of one piece.
abbrev pub write_of : ℕ → ℕ → ℕ → Bytes → Bytes
write_of id total idx piece =
    to_bytes (record { packet_id = id; chunk_idx = idx % 256; total_chunks = total % 256 }) ++ piece

get_elem?-writes :
    (id total idx : ℕ) (pieces : List Bytes) (i : ℕ) (piece : Bytes)
    → get_elem? pieces i ≡ some piece
    → get_elem? (writes id total idx pieces) i ≡ some (write_of id total (idx + i) piece)
unfolding writes
get_elem?-writes id total idx [] i piece e = cc
get_elem?-writes id total idx (p ∷ ps) zero piece e =
    let same : p ≡ piece = cc e in
    let start : idx ≡ idx + 0 = omega arith in λ k. some (write_of id total (start k) (same k))
get_elem?-writes id total idx (p ∷ ps) (suc i) piece e =
    let step : idx + 1 + i ≡ idx + suc i = omega arith in
    get_elem?-writes id total (idx + 1) ps i piece e
    ∙ (λ k. some (write_of id total (step k) piece))

pub length-writes :
    (id total idx : ℕ) (pieces : List Bytes) → length (writes id total idx pieces) ≡ length pieces
unfolding writes
length-writes id total idx [] = refl
length-writes id total idx (p ∷ ps) = ap suc (length-writes id total (idx + 1) ps)

-- What a successful split is: the payload's pieces joined give the payload, none is longer than a
-- write can hold, there are 1 to 255 of them, and write `i` is piece `i` behind its header.
pub record IsSplit (id : ℕ) (payload : Bytes) (most : ℕ) (ws : List Bytes) : Type 0 where
  pub pieces : List Bytes
  pub covers : joined pieces ≡ payload
  pub bounded : All (λ piece. length piece ≤ most) pieces
  pub count : length ws ≡ length pieces
  pub some_piece : 0 < length pieces
  pub fits : length pieces ≤ 255
  pub content :
      (i : ℕ) (piece : Bytes)
      → get_elem? pieces i ≡ some piece
      → get_elem? ws i ≡ some (write_of id (length pieces) i piece)

write_all-writes :
    (id : ℕ) (payload : Bytes) (most total : ℕ)
    → length (pieces_of payload most) ≡ total
    → write_all id payload most total ≡ writes id total 0 (pieces_of payload most)
unfolding write_all writes to_bytes
write_all-writes id [] most total e = rw (← e)
write_all-writes id (b ∷ bs) most total e = refl

pieces_of-bounded :
    (payload : Bytes) (most : ℕ) → All (λ piece. length piece ≤ most) (pieces_of payload most)
pieces_of-bounded [] most = (omega arith, tt)
pieces_of-bounded (b ∷ bs) most = chunks-bounded (length (b ∷ bs)) most (b ∷ bs)

pieces_of-nonempty : (payload : Bytes) (most : ℕ) → 0 < length (pieces_of payload most)
pieces_of-nonempty [] most = omega arith
pieces_of-nonempty (b ∷ bs) most = omega arith

-- With room for at least one byte in a write, `split_packet` either reports that the payload needs
-- more than 255 chunks, and how many (the payload's length over the room, rounded up), or writes the
-- payload's pieces as `IsSplit` says; it never panics.
pub split_packet-IsSplit :
    (id : ℕ) (payload : Bytes) (most : ℕ)
    → 0 < most
    → ((255 < total_chunks_of payload most)
        × (split_packet id payload most
            ≡ some (err (too_many_chunks (total_chunks_of payload most)))))
      ⊎ ((ws : List Bytes) × (split_packet id payload most ≡ some (ok ws))
          × IsSplit id payload most ws)
unfolding split_packet
split_packet-IsSplit id payload most p =
    let total = total_chunks_of payload most in
    let ps = pieces_of payload most in
    let size : length ps ≡ total = length-pieces_of payload most p in
    elim (Bool-cases (ltb 255 total)) [
      | inl over ↦ inl (ltb→lt _ _ over, rw (nonzero, over))
      | inr fits ↦ inr (
        write_all id payload most total,
        rw (nonzero, fits),
        record {
          pieces = ps;
          covers = joined-pieces_of payload most p;
          bounded = pieces_of-bounded payload most;
          count = rw (write_all-writes id payload most total size) (length-writes id total 0 ps);
          some_piece = pieces_of-nonempty payload most;
          fits = omega (arith, size, ltb→le _ _ fits);
          content = λ i piece e.
              rw (size, write_all-writes id payload most total size)
                (get_elem?-writes id total 0 ps i piece e ∙ start i piece);
        },
      )
    ]
  where
    nonzero : (most == 0) ≡ false
    nonzero = ground arith

    start :
        (i : ℕ) (piece : Bytes)
        → some (write_of id (total_chunks_of payload most) (0 + i) piece)
          ≡ some (write_of id (total_chunks_of payload most) i piece)
    start i piece =
        let e : 0 + i ≡ i = omega arith in
        λ k. some (write_of id (total_chunks_of payload most) (e k) piece)
