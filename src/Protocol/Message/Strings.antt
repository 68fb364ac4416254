-- ===== src/Protocol/Message/Strings.antt =====
-- `write_string` against `read_string`.
use wiredesk.Base.{
  ℕ, suc, ◌+◌, ◌%◌, ◌≤◌, ◌≡◌, sym, ◌∙◌, min, ◌∷◌, ◌++◌, leb, leb→le, Bool-cases, inl, inr, length,
  take, length-take, length-append, take-all, take-length_append, drop-length_append, le→ltb, arith,
}
use wiredesk.Base.Bytes.{Bytes}
use wiredesk.Base.Result.{ok, ◌>>=◌, map_err}
use wiredesk.Base.Utf8.{from_utf8}
use wiredesk.Core.Error.{Fallible, WireDeskError, invalid_utf8}
use wiredesk.Protocol.Message.Serialize.{write_string}
use wiredesk.Protocol.Message.Deserialize.{read_string, read_string_with_rest}

-- What is left of a text in a field of `max_len` bytes.
abbrev pub cut : ℕ → Bytes → Bytes
cut max_len s = take (min max_len 255) s

-- What the reader makes of a field that holds `s`.
abbrev pub checked : Bytes → Fallible Bytes
checked s = map_err (λ e. WireDeskError.protocol (invalid_utf8 e)) (from_utf8 s)

take-min : (n : ℕ) (s : Bytes) → take (min (length s) n) s ≡ take n s
take-min n s = elim (Bool-cases (leb (length s) n)) [
  | inl short ↦
      let fits : length s ≤ n = leb→le _ _ short in
      let least : min (length s) n ≡ length s = omega arith in
      rw least (take-all (length s) s (omega arith) ∙ sym (take-all n s fits))
  | inr long ↦ let least : min (length s) n ≡ n = ground arith in rw least
]

-- The field that is written: its length byte, then the text cut to it.
pub write_string-cut :
    (buf s : Bytes) (max_len : ℕ)
    → write_string buf s max_len ≡ buf ++ (length (cut max_len s) ∷ cut max_len s)
unfolding write_string
write_string-cut buf s max_len =
    let size : min (min (length s) max_len) 255 % 256 ≡ length (cut max_len s) =
      omega (arith, length-take (min max_len 255) s) in
    let least : min (min (length s) max_len) 255 ≡ min (length s) (min max_len 255) = omega arith in
    rw size (rw least (rw (take-min (min max_len 255) s)))

-- A field at the end of a payload, read back: the text as far as it was cut, or the refusal of a
-- cut that is no text.
pub read_string-cut :
    (s : Bytes) (max_len : ℕ)
    → read_string (length (cut max_len s) ∷ cut max_len s) ≡ checked (cut max_len s)
unfolding read_string
read_string-cut s max_len =
    let t = cut max_len s in
    rw (le→ltb (suc (length t)) (1 + length t) (omega arith), take-all (length t) t (omega arith))

pub read_string_with_rest-cut :
    (s rest : Bytes) (max_len : ℕ)
    → read_string_with_rest (length (cut max_len s) ∷ (cut max_len s ++ rest))
      ≡ (checked (cut max_len s) >>= λ t. ok (t, rest))
unfolding read_string_with_rest
read_string_with_rest-cut s rest max_len =
    let t = cut max_len s in
    rw (
      le→ltb (suc (length (t ++ rest))) (1 + length t) (omega (arith, length-append t rest)),
      take-length_append t rest,
      drop-length_append t rest,
    )

-- A text within the limit is not cut.
pub cut-all : (max_len : ℕ) (s : Bytes) → length s ≤ max_len → length s ≤ 255 → cut max_len s ≡ s
cut-all max_len s h k = take-all (min max_len 255) s (omega arith)
