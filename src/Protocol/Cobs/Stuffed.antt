-- ===== src/Protocol/Cobs/Stuffed.antt =====
-- The encoding described without a buffer: blocks, each behind its length, with an open block
-- at the front. `encode` computes it.
use wiredesk.Base.{
  ℕ, suc, ◌+◌, ◌%◌, ◌≤◌, ◌≡◌, sym, ap, ◌∙◌, true, false, inl, inr, [], ◌∷◌, ◌++◌, foldl,
  append_assoc, ◌==◌, ==_iff, if◌then◌else◌, Bool-cases, length, set-append, length-append, arith,
}
use wiredesk.Base.Bytes.{Bytes}
use wiredesk.Protocol.Cobs.{Encoder, start, close_block, push_byte, encode_byte, finish, encode}

-- What stands on the wire, less the delimiter, for an open block and the data behind it.
abbrev pub stuffed : Bytes → Bytes → Bytes
stuffed block [] = suc (length block) ∷ block
stuffed block (b ∷ rest) =
    let closed = stuffed [] rest in
    let full = stuffed [] rest in
    let open' = stuffed (block ++ b ∷ []) rest in
    if b == 0
    then suc (length block) ∷ (block ++ closed)
    else if length block == 253
    then 255 ∷ ((block ++ b ∷ []) ++ full)
    else open'

-- The encoder holds the closed blocks, a place for a code byte, and the open block.
abbrev encoder_at : Bytes → Bytes → Encoder
encoder_at done block = record {
  output = done ++ 0 ∷ block;
  code_index = length done;
  code = suc (length block);
}

close_block-at :
    (done block : Bytes)
    → close_block (encoder_at done block) ≡ encoder_at (done ++ suc (length block) ∷ block) []
unfolding close_block
close_block-at done block = λ i. record {
  output = ap (λ (o : Bytes). o ++ 0 ∷ []) (set-append done 0 (suc (length block)) block) i;
  code_index =
      (length-append done (0 ∷ block) ∙ sym (length-append done (suc (length block) ∷ block))) i;
  code = 1;
}

push_byte-at :
    (done block : Bytes) (b : ℕ)
    → length block ≤ 253
    → push_byte (encoder_at done block) b ≡ encoder_at done (block ++ b ∷ [])
unfolding push_byte
push_byte-at done block b h = λ i. record {
  output = append_assoc done (0 ∷ block) (b ∷ []) i;
  code_index = length done;
  code = counted i;
}
  where
    counted : (suc (length block) + 1) % 256 ≡ suc (length (block ++ b ∷ []))
    counted = omega (arith, length-append block (b ∷ []))

finish-at :
    (done block : Bytes)
    → finish (encoder_at done block) ≡ (done ++ suc (length block) ∷ block) ++ 0 ∷ []
unfolding finish
finish-at done block =
    ap (λ (o : Bytes). o ++ 0 ∷ []) (set-append done 0 (suc (length block)) block)

encode_byte-zero :
    (done block : Bytes) (b : ℕ)
    → (b == 0) ≡ true
    → encode_byte (encoder_at done block) b ≡ encoder_at (done ++ suc (length block) ∷ block) []
unfolding encode_byte
encode_byte-zero done block b z = rw z (close_block-at done block)

encode_byte-full :
    (done block : Bytes) (b : ℕ)
    → (b == 0) ≡ false
    → (length block == 253) ≡ true
    → encode_byte (encoder_at done block) b ≡ encoder_at (done ++ 255 ∷ (block ++ b ∷ [])) []
unfolding encode_byte
encode_byte-full done block b z f =
    let size : length block ≡ 253 = (==_iff _ _).0 f in
    let grown : suc (length (block ++ b ∷ [])) ≡ 255 =
      omega (arith, length-append block (b ∷ [])) in
    rw (z, push_byte-at done block b (omega arith), (==_iff _ _).1 grown)
      (close_block-at done (block ++ b ∷ [])
        ∙ ap (λ (n : ℕ). encoder_at (done ++ n ∷ (block ++ b ∷ [])) []) grown)

encode_byte-open :
    (done block : Bytes) (b : ℕ)
    → length block ≤ 253
    → (b == 0) ≡ false
    → (length block == 253) ≡ false
    → encode_byte (encoder_at done block) b ≡ encoder_at done (block ++ b ∷ [])
unfolding encode_byte
encode_byte-open done block b h z f = rw (z, push_byte-at done block b h, short)
  where
    short : (suc (length (block ++ b ∷ [])) == 255) ≡ false
    short = ground (arith, length-append block (b ∷ []))

-- The loop from an open block on, and what `finish` makes of it.
finish-foldl :
    (done block rest : Bytes)
    → length block ≤ 253
    → finish (foldl encode_byte (encoder_at done block) rest)
      ≡ (done ++ stuffed block rest) ++ 0 ∷ []
finish-foldl done block [] h = finish-at done block
finish-foldl done block (b ∷ rest) h = elim (Bool-cases (b == 0)) [
  | inl z ↦
      rw (z, encode_byte-zero done block b z)
        (finish-foldl (done ++ suc (length block) ∷ block) [] rest (omega arith)
          ∙ simp append_assoc)
  | inr z ↦ elim (Bool-cases (length block == 253)) [
    | inl f ↦
        rw (z, f, encode_byte-full done block b z f)
          (finish-foldl (done ++ 255 ∷ (block ++ b ∷ [])) [] rest (omega arith) ∙ simp append_assoc)
    | inr f ↦
        rw (z, f, encode_byte-open done block b h z f)
          (finish-foldl done (block ++ b ∷ []) rest (open_size f))
  ]
]
  where
    open_size : (length block == 253) ≡ false → length (block ++ b ∷ []) ≤ 253
    open_size f = ground (arith, length-append block (b ∷ []))

-- `encode` with its buffer and its patched code bytes computes the blocks.
pub encode-stuffed : (data' : Bytes) → encode data' ≡ stuffed [] data' ++ 0 ∷ []
unfolding encode start
encode-stuffed data' = finish-foldl [] [] data' (omega arith)
