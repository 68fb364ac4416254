-- ===== src/Protocol/Cobs/RoundTrip.antt =====
-- `decode` undoes `encode`.
use wiredesk.Base.{
  ℕ, suc, ◌+◌, ◌-◌, subst, ◌≤◌, ◌≡◌, ◌≢◌, refl, sym, ap, ◌∙◌, true, false, inl, inr, [], ◌∷◌, ◌++◌,
  append-nil, append_assoc, ltb, lt→ltb, ◌==◌, ==_iff, if◌then◌else◌, Bool-cases, length, All,
  All-append, length-append, arith,
}
use wiredesk.Base.Bytes.{Bytes}
use wiredesk.Base.Result.{ok}
use wiredesk.Protocol.Cobs.{encode, decode, decode_loop, strip_delimiter}
use wiredesk.Protocol.Cobs.Stuffed.{stuffed, encode-stuffed}

abbrev NonZero : Bytes → Type 0
NonZero = All (λ b. b ≢ 0)

pub strip_delimiter-append : (xs : Bytes) → strip_delimiter (xs ++ 0 ∷ []) ≡ xs
unfolding strip_delimiter
strip_delimiter-append [] = refl
strip_delimiter-append (x ∷ []) = refl
strip_delimiter-append (x ∷ y ∷ xs) = ap (◌∷◌ x) (strip_delimiter-append (y ∷ xs))

decode_loop-cong :
    (rest : Bytes) (code : ℕ) {i j : ℕ} {o p : Bytes}
    → i ≡ j
    → o ≡ p
    → decode_loop rest 0 code i o ≡ decode_loop rest 0 code j p
decode_loop-cong rest code e f = λ k. decode_loop rest 0 code (e k) (f k)

-- The inner loop copies a block without zeros.
decode_loop-block :
    (block rest output : Bytes) (code i : ℕ)
    → NonZero block
    → decode_loop (block ++ rest) (length block) code i output
      ≡ decode_loop rest 0 code (i + length block) (output ++ block)
unfolding decode_loop
decode_loop-block [] rest output code i h =
    decode_loop-cong rest code (omega arith) (sym (append-nil output))
decode_loop-block (b ∷ block) rest output code i h = elim (Bool-cases (b == 0)) [
  | inl z ↦ absurd (h.0 ((==_iff b 0).0 z))
  | inr z ↦ rw z (
      decode_loop-block block rest (output ++ b ∷ []) code (i + 1) h.1
      ∙ decode_loop-cong rest code (omega arith) (append_assoc output (b ∷ []) block))
]

-- The `0` that a short block leaves behind when more follows.
abbrev due : ℕ → Bytes
due code = if ltb code 0xff then 0 ∷ [] else []

-- The outer loop reads a code byte.
decode_loop-code :
    (n : ℕ) (rest output : Bytes) (code i : ℕ)
    → decode_loop (suc n ∷ rest) 0 code i output
      ≡ decode_loop rest n (suc n) (i + 1) (output ++ due code)
unfolding decode_loop
decode_loop-code n rest output code i =
    let same : suc n - 1 ≡ n = omega arith in ground (arith, append-nil output, same)

-- A whole block, read after one with code `code`.
decode_loop-next :
    (block rest output : Bytes) (code i : ℕ)
    → NonZero block
    → decode_loop (suc (length block) ∷ (block ++ rest)) 0 code i output
      ≡ decode_loop rest 0
          (suc (length block))
          (i + 1 + length block)
          ((output ++ due code) ++ block)
decode_loop-next block rest output code i h =
    decode_loop-code (length block) (block ++ rest) output code i
    ∙ decode_loop-block block rest (output ++ due code) _ (i + 1) h

decode_loop-stuffed :
    (block rest output : Bytes) (code i : ℕ)
    → NonZero block
    → length block ≤ 253
    → decode_loop (stuffed block rest) 0 code i output
      ≡ ok ((output ++ due code) ++ (block ++ rest))
decode_loop-stuffed block [] output code i h s = closed
  where
    closed :
        decode_loop (suc (length block) ∷ block) 0 code i output
        ≡ ok ((output ++ due code) ++ (block ++ []))
    closed = rw append-nil (
        (λ k. decode_loop (suc (length block) ∷ sym (append-nil block) k) 0 code i output)
        ∙ decode_loop-next block [] output code i h
        ∙ unfold decode_loop in refl)
decode_loop-stuffed block (b ∷ rest) output code i h s = elim (Bool-cases (b == 0)) [
  | inl z ↦ rw z (
      decode_loop-next block (stuffed [] rest) output code i h
      ∙ decode_loop-stuffed [] rest _ (suc (length block)) _ tt (omega arith)
      ∙ ap ok (rw (short, (==_iff b 0).0 z) (simp append_assoc)))
  | inr z ↦ elim (Bool-cases (length block == 253)) [
    | inl f ↦
        rw (z, f)
          (subst
            (λ n.
              decode_loop (n ∷ ((block ++ b ∷ []) ++ stuffed [] rest)) 0 code i output
              ≡ ok ((output ++ due code) ++ (block ++ b ∷ rest)))
            (full f)
            (decode_loop-next (block ++ b ∷ []) (stuffed [] rest) output code i (grown z)
              ∙ decode_loop-stuffed [] rest _ (suc (length (block ++ b ∷ []))) _ tt (omega arith)
              ∙ ap ok (rw (full f) (simp (append_assoc, append-nil)))))
    | inr f ↦
        rw (z, f)
          (decode_loop-stuffed (block ++ b ∷ []) rest output code i (grown z) (open_size f)
            ∙ ap ok (simp append_assoc))
  ]
]
  where
    short : ltb (suc (length block)) 255 ≡ true
    short = lt→ltb _ _ (omega arith)

    grown : (b == 0) ≡ false → NonZero (block ++ b ∷ [])
    grown z = All-append _ block (b ∷ []) h ((λ e. cc ((==_iff b 0).1 e)), tt)

    full : (length block == 253) ≡ true → suc (length (block ++ b ∷ [])) ≡ 255
    full f = omega (arith, length-append block (b ∷ []), (==_iff _ _).0 f)

    open_size : (length block == 253) ≡ false → length (block ++ b ∷ []) ≤ 253
    open_size f = ground (arith, length-append block (b ∷ []))

-- Whatever the data hold, zeros and runs of any length included, `decode` gives them back.
pub decode-encode : (data' : Bytes) → decode (encode data') ≡ ok data'
unfolding decode
decode-encode data' =
    rw (encode-stuffed data', strip_delimiter-append (stuffed [] data'))
      (decode_loop-stuffed [] data' [] 255 0 tt (omega arith))
