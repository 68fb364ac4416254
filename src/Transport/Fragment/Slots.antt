-- ===== src/Transport/Fragment/Slots.antt =====
-- A slot that holds some of a packet's pieces.
use wiredesk.Base.{
  ℕ, zero, suc, ◌+◌, ◌≤◌, ◌≡◌, ◌⊎◌, refl, sym, ap, ◌∙◌, Bool, true, false, inl, inr, List, [], ◌∷◌,
  Option, some, none, ◌==◌, length, get_elem?, set, replicate, arith,
}
use wiredesk.Base.Bytes.{Bytes}
use wiredesk.Transport.Fragment.{Slot, ChunkHeader, fresh, store, gather}
use wiredesk.Base.Chunks.{joined, full}

-- The pieces that a mask marks.
abbrev pub masked : List Bytes → List Bool → List (Option Bytes)
masked [] mask = []
masked (p ∷ ps) [] = none ∷ masked ps []
masked (p ∷ ps) (true ∷ mask) = some p ∷ masked ps mask
masked (p ∷ ps) (false ∷ mask) = none ∷ masked ps mask

abbrev pub marked : List Bool → ℕ
marked [] = 0
marked (true ∷ mask) = suc (marked mask)
marked (false ∷ mask) = marked mask

abbrev pub slot_of : ℕ → List Bytes → List Bool → Slot
slot_of first pieces mask = record {
  first_seen = first;
  total = length pieces;
  chunks = masked pieces mask;
  received = marked mask;
}

masked-none :
    (pieces : List Bytes) (n : ℕ)
    → n ≡ length pieces
    → masked pieces (replicate n false) ≡ replicate n none
masked-none [] zero e = refl
masked-none [] (suc n) e = absurd (omega arith)
masked-none (p ∷ ps) zero e = absurd (omega arith)
masked-none (p ∷ ps) (suc n) e = ap (◌∷◌ none) (masked-none ps n (omega arith))

marked-none : (n : ℕ) → marked (replicate n false) ≡ 0
marked-none zero = refl
marked-none (suc n) = marked-none n

pub fresh-slot_of :
    (now : ℕ) (pieces : List Bytes) (h : ChunkHeader)
    → h.total_chunks ≡ length pieces
    → fresh now h ≡ slot_of now pieces (replicate (length pieces) false)
unfolding fresh
fresh-slot_of now pieces h e = λ i. record {
  first_seen = now;
  total = e i;
  chunks =
      (ap (λ (n : ℕ). replicate {A = Option Bytes} n none) e
          ∙ sym (masked-none pieces (length pieces) refl))
        i;
  received = sym (marked-none (length pieces)) i;
}

-- A mark is set, or stands already.
masked-set :
    (pieces : List Bytes) (mask : List Bool) (i : ℕ) (piece : Bytes)
    → length mask ≡ length pieces
    → get_elem? pieces i ≡ some piece
    → ((get_elem? (masked pieces mask) i ≡ some none)
        × (set (masked pieces mask) i (some piece) ≡ masked pieces (set mask i true))
        × (marked (set mask i true) ≡ marked mask + 1))
      ⊎ ((get_elem? (masked pieces mask) i ≡ some (some piece)) × (set mask i true ≡ mask))
masked-set [] mask i piece e g = cc
masked-set (p ∷ ps) [] i piece e g = absurd (omega arith)
masked-set (p ∷ ps) (true ∷ mask) zero piece e g = inr (ap some g, refl)
masked-set (p ∷ ps) (false ∷ mask) zero piece e g =
    let same : p ≡ piece = cc g in
    inl (refl, (λ k. some (sym same k) ∷ masked ps mask), omega arith)
masked-set (p ∷ ps) (true ∷ mask) (suc i) piece e g =
    elim (masked-set ps mask i piece (omega arith) g) [
      | inl (a, b, c) ↦ inl (a, ap (◌∷◌ (some p)) b, omega arith)
      | inr (a, b) ↦ inr (a, ap (◌∷◌ true) b)
    ]
masked-set (p ∷ ps) (false ∷ mask) (suc i) piece e g =
    elim (masked-set ps mask i piece (omega arith) g) [
      | inl (a, b, c) ↦ inl (a, ap (◌∷◌ none) b, c)
      | inr (a, b) ↦ inr (a, ap (◌∷◌ false) b)
    ]

-- A piece is stored once: its second arrival changes nothing.
pub store-slot_of :
    (first : ℕ) (pieces : List Bytes) (mask : List Bool) (i : ℕ) (piece : Bytes)
    → length mask ≡ length pieces
    → get_elem? pieces i ≡ some piece
    → store (slot_of first pieces mask) i piece ≡ some (slot_of first pieces (set mask i true))
unfolding store
store-slot_of first pieces mask i piece e g = elim (masked-set pieces mask i piece e g) [
  | inl (a, b, c) ↦
      rw (a, store)
        (λ k.
          some (record {
            first_seen = first;
            total = length pieces;
            chunks = b k;
            received = sym c k;
          }))
  | inr (a, b) ↦ rw (a, store) (λ k. some (slot_of first pieces (sym b k)))
]

marked-le : (mask : List Bool) → marked mask ≤ length mask
marked-le [] = omega arith
marked-le (true ∷ mask) = omega (arith, marked-le mask)
marked-le (false ∷ mask) = omega (arith, marked-le mask)

-- The count is the total exactly when no mark is missing.
pub full-marked : (mask : List Bool) → (marked mask == length mask) ≡ full mask
full-marked [] = refl
full-marked (true ∷ mask) = ground (arith, full-marked mask)
full-marked (false ∷ mask) = ground (arith, marked-le mask)

-- A full slot gives the packet, and `expect` never fails.
pub gather-masked :
    (pieces : List Bytes) (mask : List Bool)
    → length mask ≡ length pieces
    → full mask ≡ true
    → gather (masked pieces mask) ≡ some (joined pieces)
unfolding gather
gather-masked [] mask e f = refl
gather-masked (p ∷ ps) [] e f = absurd (omega arith)
gather-masked (p ∷ ps) (true ∷ mask) e f = rw (gather-masked ps mask (omega arith) f)
gather-masked (p ∷ ps) (false ∷ mask) e f = cc
