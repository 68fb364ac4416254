-- ===== src/Transport/Fragment/Delivery.antt =====
-- From `split_packet` at one end to `feed_chunk_at` at the other.
use wiredesk.Base.{
  ℕ, ◌+◌, ◌≤◌, ◌<◌, ◌≡◌, refl, sym, ap, ◌∙◌, subst, Bool, true, false, inl, inr, List, [], ◌∷◌,
  ◌++◌, some, none, ==_iff, length, length-set, length-replicate, get_or, set, replicate, All,
  get_elem?-below, get_or-get_elem?,
}
use wiredesk.Base.Bytes.{Bytes}
use wiredesk.Base.Result.{ok}
use wiredesk.Base.Chunks.{full}
use wiredesk.Transport.Fragment.{
  Reassembler, Outcome, returned, feed_chunk_at, sweep_expired, settle,
}
use wiredesk.Transport.Fragment.Split.{IsSplit}
use wiredesk.Transport.Fragment.Slots.{slot_of}
use wiredesk.Transport.Fragment.Reassembly.{
  outcomes, after, marks, Holding, feed_chunk_at-settle, settle-full, settle-open, full-before,
}

-- The writes that arrive: times and indices give times and bytes.
abbrev pub sent_at : List Bytes → List (ℕ × ℕ) → List (ℕ × Bytes)
sent_at ws [] = []
sent_at ws ((now, i) ∷ rest) = (now, get_or ws i []) ∷ sent_at ws rest

-- Arrivals of the `n` writes, all within five seconds of `start`.
abbrev pub InTime : ℕ → ℕ → List (ℕ × ℕ) → Type 0
InTime start n = All (λ a. (start ≤ a.0) × (a.0 < start + 5000) × (a.1 < n))

-- All `n` writes are among the arrivals.
abbrev pub has_all : ℕ → List (ℕ × ℕ) → Bool
has_all n arrivals = full (marks (replicate n false) arrivals)

marks-append :
    (arrivals : List (ℕ × ℕ)) (now i : ℕ) (mask : List Bool)
    → marks mask (arrivals ++ (now, i) ∷ []) ≡ set (marks mask arrivals) i true
marks-append [] now i mask = refl
marks-append ((u, j) ∷ arrivals) now i mask = marks-append arrivals now i (set mask j true)

module _ (id : ℕ) (payload : Bytes) (most : ℕ) (ws : List Bytes)
    (split : IsSplit id payload most ws) (is_u16 : id < 65536) (start : ℕ) where
  abbrev IsOpen : Reassembler → List Bool → Type 0
  IsOpen r mask = Holding id split.pieces start r mask × (length mask ≡ length split.pieces)

  -- One write, up to the question whether the packet is complete.
  arrival :
      (r : Reassembler) (mask : List Bool) (now i : ℕ)
      → IsOpen r mask
      → (start ≤ now) × (now < start + 5000) × (i < length split.pieces)
      → (first : ℕ) × (start ≤ first)
        × (feed_chunk_at r now (get_or ws i [])
            ≡ settle (sweep_expired r now) id (slot_of first split.pieces (set mask i true)))
  arrival r mask now i h t =
      let (piece, at) = get_elem?-below split.pieces i t.2 in
      let bytes = get_or-get_elem? ws i [] (split.content i piece at) in
      let (first, f, e) =
        feed_chunk_at-settle id split.pieces start is_u16 split.fits r mask now i piece h.0 h.1 t.0
          t.1 t.2 at in
      (first, f, ap (feed_chunk_at r now) bytes ∙ e)

  -- What the last missing write does, and what another one does.
  arrival-full :
      (r : Reassembler) (mask : List Bool) (now i : ℕ)
      → IsOpen r mask
      → (start ≤ now) × (now < start + 5000) × (i < length split.pieces)
      → full (set mask i true) ≡ true
      → ((feed_chunk_at r now (get_or ws i [])).1 ≡ returned (ok (some payload)))
        × ((feed_chunk_at r now (get_or ws i [])).0.slots id ≡ none)
  arrival-full r mask now i h t f =
      let (first, _, e) = arrival r mask now i h t in
      let s =
        e
        ∙ settle-full id split.pieces start is_u16 split.fits (sweep_expired r now) first
            (set mask i true) (length-set mask i true ∙ h.1) f in
      (
        ap (λ (x : Reassembler × Outcome). x.1) s
            ∙ ap (λ (x : Bytes). returned (ok (some x))) split.covers,
        ap (λ (x : Reassembler × Outcome). x.0.slots id) s ∙ rw ((==_iff id id).1 refl),
      )

  arrival-IsOpen :
      (r : Reassembler) (mask : List Bool) (now i : ℕ)
      → IsOpen r mask
      → (start ≤ now) × (now < start + 5000) × (i < length split.pieces)
      → full (set mask i true) ≡ false
      → ((feed_chunk_at r now (get_or ws i [])).1 ≡ returned (ok none))
        × IsOpen (feed_chunk_at r now (get_or ws i [])).0 (set mask i true)
  arrival-IsOpen r mask now i h t f =
      let (first, low, e) = arrival r mask now i h t in
      let size : length (set mask i true) ≡ length split.pieces = length-set mask i true ∙ h.1 in
      let s =
        e
        ∙ settle-open id split.pieces start is_u16 split.fits (sweep_expired r now) first
            (set mask i true) size f in
      (
        ap (λ (x : Reassembler × Outcome). x.1) s,
        (
          inr (
            first,
            low,
            ap (λ (x : Reassembler × Outcome). x.0.slots id) s ∙ rw ((==_iff id id).1 refl),
          ),
          size,
        ),
      )

  run :
      (arrivals : List (ℕ × ℕ)) (now i : ℕ) (r : Reassembler) (mask : List Bool)
      → IsOpen r mask
      → InTime start (length split.pieces) arrivals
      → (start ≤ now) × (now < start + 5000) × (i < length split.pieces)
      → full (marks mask arrivals) ≡ false
      → full (set (marks mask arrivals) i true) ≡ true
      → (outcomes r (sent_at ws (arrivals ++ (now, i) ∷ []))
          ≡ replicate (length arrivals) (returned (ok none)) ++ returned (ok (some payload)) ∷ [])
        × ((after r (sent_at ws (arrivals ++ (now, i) ∷ []))).slots id ≡ none)
  run [] now i r mask h a t f g =
      let last = arrival-full r mask now i h t g in (ap (λ o. o ∷ []) last.0, last.1)
  run ((u, j) ∷ arrivals) now i r mask h a t f g =
      let first = arrival-IsOpen r mask u j h a.0 (full-before arrivals (set mask j true) f) in
      let rest =
        run arrivals now i (feed_chunk_at r u (get_or ws j [])).0 (set mask j true) first.1 a.1 t f
          g in
      ((λ k. first.0 k ∷ rest.0 k), rest.1)

  -- The writes of a split packet, in any order and with any repetitions, all within five seconds,
  -- fed to a reassembler that has no slot for the packet's id: no call fails or panics, every call
  -- before the one that brings the last missing write returns nothing, that call returns the
  -- payload, and the slot is free again.
  pub feed-split_packet :
      (arrivals : List (ℕ × ℕ)) (now i : ℕ) (r : Reassembler)
      → r.slots id ≡ none
      → InTime start (length ws) arrivals
      → (start ≤ now) × (now < start + 5000) × (i < length ws)
      → has_all (length ws) arrivals ≡ false
      → has_all (length ws) (arrivals ++ (now, i) ∷ []) ≡ true
      → (outcomes r (sent_at ws (arrivals ++ (now, i) ∷ []))
          ≡ replicate (length arrivals) (returned (ok none)) ++ returned (ok (some payload)) ∷ [])
        × ((after r (sent_at ws (arrivals ++ (now, i) ∷ []))).slots id ≡ none)
  feed-split_packet arrivals now i r e a t f g =
      let none_yet = replicate (length split.pieces) false in
      let missing = subst (λ n. has_all n arrivals ≡ false) split.count f in
      let all = subst (λ n. has_all n (arrivals ++ (now, i) ∷ []) ≡ true) split.count g in
      run arrivals now i r none_yet (inl (e, refl), length-replicate (length split.pieces) false)
        (subst (λ n. InTime start n arrivals) split.count a)
        (subst (λ n. (start ≤ now) × (now < start + 5000) × (i < n)) split.count t) missing
        (sym (ap full (marks-append arrivals now i none_yet)) ∙ all)
