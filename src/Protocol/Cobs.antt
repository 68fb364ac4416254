-- ===== src/Protocol/Cobs.antt =====
-- crates/wiredesk-protocol/src/cobs.rs. Consistent Overhead Byte Stuffing over 0x00.
-- A byte is a number below 256; a vector is a list.
pub mod Stuffed
pub mod RoundTrip
pub mod Size
mod Tests
use wiredesk.Base.{
  ℕ, zero, suc, ◌+◌, ◌-◌, ◌%◌, Bool, true, false, List, [], ◌∷◌, ◌++◌, foldl, ltb, ◌==◌,
  if◌then◌else◌, length, set,
}
use wiredesk.Base.Bytes.{Bytes}
use wiredesk.Base.Result.{Result, ok, err}

-- The locals of `encode`.
pub record Encoder : Type 0 where
  pub output : Bytes
  pub code_index : ℕ
  pub code : ℕ

-- `output.push(0)` for the first code byte.
pub start : Encoder
start = record { output = 0 ∷ []; code_index = 0; code = 1 }

-- `output[code_index] = code; code = 1; code_index = output.len(); output.push(0)`.
pub close_block : Encoder → Encoder
close_block e = record {
  output = set e.output e.code_index e.code ++ 0 ∷ [];
  code_index = length e.output;
  code = 1;
}

-- `output.push(byte); code += 1`.
pub push_byte : Encoder → ℕ → Encoder
push_byte e byte = record e { output = e.output ++ byte ∷ []; code = (e.code + 1) % 256 }

-- One round of the `for` loop.
pub encode_byte : Encoder → ℕ → Encoder
encode_byte e byte =
    if byte == 0
    then close_block e
    else if (push_byte e byte).code == 0xff
    then close_block (push_byte e byte)
    else push_byte e byte

-- The last code byte, and the delimiter.
pub finish : Encoder → Bytes
finish e = set e.output e.code_index e.code ++ 0 ∷ []

unfoldable pub encode : Bytes → Bytes
unfolding start close_block push_byte encode_byte finish
encode data' = finish (foldl encode_byte start data')

pub data DecodeError : Type 0 where
  unexpected_zero : ℕ → DecodeError
  truncated : DecodeError

-- Both loops of `decode`, over the bytes from position `i` on. `left` is what the inner `for` has
-- still to copy. At 0 the inner loop is over: unless the data end here, the `0` of a short block
-- (`code < 0xFF && i < data.len()`) is pushed, and the outer loop reads the next code byte.
unfoldable pub decode_loop : Bytes → ℕ → ℕ → ℕ → Bytes → Result DecodeError Bytes
decode_loop [] zero code i output = ok output
decode_loop [] (suc left) code i output = err truncated
decode_loop (b ∷ rest) zero code i output =
    let output' = if ltb code 0xff then output ++ 0 ∷ [] else output in
    let more = decode_loop rest (b - 1) b (i + 1) output' in
    if b == 0 then err (unexpected_zero i) else more
decode_loop (b ∷ rest) (suc left) code i output =
    let more = decode_loop rest left code (i + 1) (output ++ b ∷ []) in
    if b == 0 then err (unexpected_zero i) else more

-- `&data[..data.len() - 1]` if the last byte is 0.
unfoldable pub strip_delimiter : Bytes → Bytes
strip_delimiter [] = []
strip_delimiter (b ∷ []) = if b == 0 then [] else b ∷ []
strip_delimiter (b ∷ c ∷ rest) = b ∷ strip_delimiter (c ∷ rest)

-- Before the first code byte no `0` is due, as after a full block: hence the 0xff.
unfoldable pub decode : Bytes → Result DecodeError Bytes
unfolding decode_loop strip_delimiter
decode data' = decode_loop (strip_delimiter data') 0 0xff 0 []
