-- ===== src/Protocol/Cobs/Size.antt =====
-- What `encode` promises of its output: its length and its bytes.
use wiredesk.Base.{
  ℕ, ◌+◌, ◌/◌, ◌≤◌, ◌<◌, ◌≡◌, ◌≢◌, false, inl, inr, [], ◌∷◌, ◌++◌, ◌==◌, ==_iff, Bool-cases, length,
  All, All-append, length-append, arith,
}
use wiredesk.Base.Bytes.{Bytes, AreBytes}
use wiredesk.Protocol.Cobs.{encode}
use wiredesk.Protocol.Cobs.Stuffed.{stuffed, encode-stuffed}

-- A byte that may stand before the delimiter.
abbrev pub IsStuffing : ℕ → Type 0
IsStuffing b = (b ≢ 0) × (b < 256)

length-stuffed :
    (block rest : Bytes)
    → length block ≤ 253
    → length (stuffed block rest)
      ≤ 1 + length block + length rest + (length block + length rest) / 254
length-stuffed block [] h = omega arith
length-stuffed block (b ∷ rest) h = elim (Bool-cases (b == 0)) [
  | inl z ↦
      rw z
        (omega (arith, length-append block (stuffed [] rest), length-stuffed [] rest (omega arith)))
  | inr z ↦ elim (Bool-cases (length block == 253)) [
    | inl f ↦
        rw (z, f)
          (omega (
            arith,
            (==_iff _ _).0 f,
            length-append (block ++ b ∷ []) (stuffed [] rest),
            length-append block (b ∷ []),
            length-stuffed [] rest (omega arith),
          ))
    | inr f ↦
        let grown : length (block ++ b ∷ []) ≡ length block + 1 =
          omega (arith, length-append block (b ∷ [])) in
        rw (z, f) (omega (arith, length-stuffed (block ++ b ∷ []) rest (ground arith)))
  ]
]

-- The encoding is at most `data.len() + data.len() / 254 + 2` long: the buffer that `encode`
-- reserves never grows.
pub length-encode : (data' : Bytes) → length (encode data') ≤ length data' + length data' / 254 + 2
length-encode data' = rw (encode-stuffed data') (
    omega (arith, length-append (stuffed [] data') (0 ∷ []), length-stuffed [] data' (omega arith)))

-- A property of the code bytes and of the data's bytes other than 0 holds of the whole encoding.
module _ {ℓ} (P : ℕ → Type ℓ) (codes : (n : ℕ) → 0 < n → n < 256 → P n) where
  stuffed-All :
      (block rest : Bytes)
      → length block ≤ 253
      → All P block
      → All (λ b. b ≢ 0 → P b) rest
      → All P (stuffed block rest)
  stuffed-All block [] s h r = (codes _ (omega arith) (omega arith), h)
  stuffed-All block (b ∷ rest) s h r = elim (Bool-cases (b == 0)) [
    | inl z ↦ rw z (
      codes _ (omega arith) (omega arith),
      All-append P block (stuffed [] rest) h (stuffed-All [] rest (omega arith) tt r.1),
    )
    | inr z ↦ elim (Bool-cases (length block == 253)) [
      | inl f ↦
          rw (z, f)
            (
              codes 255 (omega arith) (omega arith),
              All-append P (block ++ b ∷ []) (stuffed [] rest) (grown z)
                  (stuffed-All [] rest (omega arith) tt r.1),
            )
      | inr f ↦
          let size : length (block ++ b ∷ []) ≤ 253 =
            ground (arith, length-append block (b ∷ [])) in
          rw (z, f) (stuffed-All (block ++ b ∷ []) rest size (grown z) r.1)
    ]
  ]
    where
      grown : (b == 0) ≡ false → All P (block ++ b ∷ [])
      grown z = All-append P block (b ∷ []) h (r.0 (λ e. cc ((==_iff b 0).1 e)), tt)

-- The encoding of bytes is a run of non-zero bytes and one 0, the delimiter: a receiver that
-- splits at 0 finds the frame's end and no other.
pub encode-IsStuffing :
    (data' : Bytes)
    → AreBytes data'
    → (frame : Bytes) × (encode data' ≡ frame ++ 0 ∷ []) × All IsStuffing frame
encode-IsStuffing data' h = (
  stuffed [] data',
  encode-stuffed data',
  stuffed-All IsStuffing (λ n low high. (omega arith, high)) [] data' (omega arith) tt
      (bytes data' h),
)
  where
    bytes : (xs : Bytes) → AreBytes xs → All (λ b. b ≢ 0 → IsStuffing b) xs
    bytes [] k = tt
    bytes (x ∷ xs) k = ((λ e. (e, k.0)), bytes xs k.1)

stuffed-nonempty : (block rest : Bytes) → 0 < length (stuffed block rest)
stuffed-nonempty block [] = omega arith
stuffed-nonempty block (b ∷ rest) = ground (arith, stuffed-nonempty (block ++ b ∷ []) rest)

-- What a frame reader needs to know of an encoding, whatever the data are.
pub encode_frame_shape :
    (data' : Bytes)
    → (frame : Bytes) × (encode data' ≡ frame ++ 0 ∷ [])
      × All (λ b. b ≢ 0) frame
      × (0 < length frame)
      × (length frame ≤ length data' + length data' / 254 + 1)
encode_frame_shape data' = (
  stuffed [] data',
  encode-stuffed data',
  stuffed-All (λ b. b ≢ 0) (λ n low high. omega arith) [] data' (omega arith) tt (any data'),
  stuffed-nonempty [] data',
  omega (arith, length-stuffed [] data' (omega arith)),
)
  where
    any : (xs : Bytes) → All (λ b. b ≢ 0 → b ≢ 0) xs
    any [] = tt
    any (x ∷ xs) = ((λ e. e), any xs)
