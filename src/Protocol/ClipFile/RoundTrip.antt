-- ===== src/Protocol/ClipFile/RoundTrip.antt =====
-- What is packed is unpacked.
use wiredesk.Base.{
  ℕ, suc, ◌+◌, ◌/◌, ◌%◌, ◌≤◌, ◌<◌, ◌≡◌, sym, ap, ◌∙◌, false, [], ◌∷◌, ◌++◌, le→ltb, ◌==◌, length,
  take, drop, length-append, length-take, take-length_append, drop-length_append, take-append-drop,
  arith,
}
use wiredesk.Base.Bytes.{Bytes, AreBytes, le_bytes, from_le, from_le-le_bytes}
use wiredesk.Base.Result.{Result, ok, err, map_err, >>=-eq-ok}
use wiredesk.Base.Utf8.{IsUtf8, from_utf8, from_utf8-ok}
use wiredesk.Protocol.ClipFile.{
  pack_first_chunk, unpack_first_chunk, max_filename_len, cut_name, unpack_name, bad_utf8,
}

-- The packed form.
abbrev pub packed : Bytes → Bytes → Bytes
packed name content = le_bytes 2 (length name) ++ (name ++ content)

pack-packed :
    (name content : Bytes)
    → 0 < length name
    → length name ≤ 4096
    → pack_first_chunk name content ≡ ok (packed name content)
unfolding pack_first_chunk
pack-packed name content p h =
    let small : length name % 65536 ≡ length name = omega arith in
    rw (nonzero (length name) p, le→ltb max_filename_len (length name) h)
      (λ k. ok (le_bytes 2 (small k) ++ (name ++ content)))
  where
    nonzero : (n : ℕ) → 0 < n → (n == 0) ≡ false
    nonzero n p = ground arith

cut_name-packed :
    (a b : ℕ) (name content : Bytes)
    → IsUtf8 name
    → cut_name (a ∷ b ∷ (name ++ content)) (length name) ≡ ok (name, content)
cut_name-packed a b name content u =
    let two : 2 + length name ≡ suc (suc (length name)) = omega arith in
    rw (two, take-length_append name content, drop-length_append name content, u)

unpack_name-packed :
    (a b : ℕ) (name content : Bytes)
    → IsUtf8 name
    → length name ≤ 4096
    → unpack_name (a ∷ b ∷ (name ++ content)) (length name) ≡ ok (name, content)
unfolding unpack_name
unpack_name-packed a b name content u h =
    rw
      (
        le→ltb max_filename_len (length name) h,
        le→ltb (suc (suc (length (name ++ content)))) (2 + length name)
            (omega (arith, length-append name content)),
      )
      (cut_name-packed a b name content u)

-- A name that is text of 1 to 4096 bytes can be packed in front of any content, and unpacking gives
-- both back.
pub unpack-pack :
    (name content : Bytes)
    → IsUtf8 name
    → 0 < length name
    → length name ≤ 4096
    → (payload : Bytes) × (pack_first_chunk name content ≡ ok payload)
      × (unpack_first_chunk payload ≡ ok (name, content))
unfolding unpack_first_chunk
unpack-pack name content u p h = (
  packed name content,
  pack-packed name content p h,
  rw
      (
        le→ltb (suc (suc (length (name ++ content)))) 2 (omega arith),
        from_le-le_bytes 2 (length name) (omega arith),
      )
      (unpack_name-packed _ _ name content u h),
)

pub unpack_name-checked :
    (payload : Bytes) (n : ℕ) {parts : Bytes × Bytes}
    → unpack_name payload n ≡ ok parts
    → (n ≤ 4096) × (2 + n ≤ length payload) × (cut_name payload n ≡ ok parts)
unfolding unpack_name
unpack_name-checked payload n e = ground arith

map_err-ok {ℓ κ μ} :
    {E : Type ℓ} {F : Type κ} {A : Type μ} (f : E → F) (m : Result E A) {a : A}
    → map_err f m ≡ ok a
    → m ≡ ok a
map_err-ok f (ok b) {a} h = let same : b ≡ a = cc h in ap ok same
map_err-ok f (err e) h = cc

cut_name-parts :
    (a b n : ℕ) (rest name content : Bytes)
    → n ≤ length rest
    → cut_name (a ∷ b ∷ rest) n ≡ ok (name, content)
    → (rest ≡ name ++ content) × IsUtf8 name × (length name ≡ n)
cut_name-parts a b n rest name content h e =
    let two : 2 + n ≡ suc (suc n) = omega arith in
    let (s, read, out) =
      >>=-eq-ok (map_err (λ _. bad_utf8) (from_utf8 (take n rest)))
        (λ s. ok (s, drop (2 + n) (a ∷ b ∷ rest))) e in
    let text = map_err-ok (λ _. bad_utf8) (from_utf8 (take n rest)) read in
    let same : s ≡ name = cc out in
    let behind : drop (2 + n) (a ∷ b ∷ rest) ≡ content = cc out in
    let name_is : name ≡ take n rest = sym same ∙ from_utf8-ok (take n rest) text in
    let content_is : content ≡ drop n rest = sym behind ∙ ap (λ m. drop m (a ∷ b ∷ rest)) two in
    (
      sym (take-append-drop n rest) ∙ (λ k. sym name_is k ++ sym content_is k),
      rw name_is (text ∙ ap ok (from_utf8-ok (take n rest) text)),
      omega (arith, ap length name_is, length-take n rest),
    )

-- What unpacking accepts is a packed form: a payload of bytes that unpacks to a name and a content
-- is the name's length in two bytes, the name, which is text of at most 4096 bytes, and the content.
pub unpack_sound :
    (payload name content : Bytes)
    → AreBytes payload
    → unpack_first_chunk payload ≡ ok (name, content)
    → (payload ≡ packed name content) × IsUtf8 name × (length name ≤ 4096)
unfolding unpack_first_chunk unpack_name
unpack_sound [] name content a e = cc
unpack_sound (b ∷ []) name content a e = cc
unpack_sound (b ∷ c ∷ rest) name content a e =
    let n = from_le (b ∷ c ∷ []) in
    let (small, long, cut) =
      unpack_name-checked (b ∷ c ∷ rest) n
        (rw (le→ltb (suc (suc (length rest))) 2 (omega arith)) at e) in
    let (parts, text, size) = cut_name-parts b c n rest name content (omega (arith, long)) cut in
    ((λ k. low size k ∷ high size k ∷ parts k), text, omega (arith, size, small))
  where
    low : length name ≡ from_le (b ∷ c ∷ []) → b ≡ length name % 256
    low e = omega (arith, a.0, a.1.0)

    high : length name ≡ from_le (b ∷ c ∷ []) → c ≡ length name / 256 % 256
    high e = omega (arith, a.0, a.1.0)
