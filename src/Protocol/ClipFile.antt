-- ===== src/Protocol/ClipFile.antt =====
-- crates/wiredesk-protocol/src/clip_file.rs: the name of a file in front of its content.
pub mod RoundTrip
pub mod Sanitize
pub mod Basename
mod Tests
use wiredesk.Base.{
  ℕ, ◌+◌, ◌*◌, ◌%◌, Bool, List, [], ◌∷◌, ◌++◌, ltb, ◌==◌, if◌then◌else◌, length, take, drop,
}
use wiredesk.Base.Bytes.{Bytes, le_bytes, from_le}
use wiredesk.Base.Result.{Result, ok, err, ◌>>=◌, map_err}
use wiredesk.Base.Utf8.{from_utf8}

abbrev pub max_filename_len : ℕ
max_filename_len = 4096

pub data ClipFileError : Type 0 where
  truncated bad_utf8 name_too_long empty_name : ClipFileError

unfoldable pub pack_first_chunk : Bytes → Bytes → Result ClipFileError Bytes
pack_first_chunk name content =
    if length name == 0
    then err empty_name
    else if ltb max_filename_len (length name)
    then err name_too_long
    else ok (le_bytes 2 (length name % 65536) ++ (name ++ content))

-- The name and the content, where the name ends within the payload.
abbrev pub cut_name : Bytes → ℕ → Result ClipFileError (Bytes × Bytes)
cut_name payload name_len =
    map_err (λ _. bad_utf8) (from_utf8 (take name_len (drop 2 payload))) >>= λ name.
    ok (name, drop (2 + name_len) payload)

-- The checks of a name's announced length.
unfoldable pub unpack_name : Bytes → ℕ → Result ClipFileError (Bytes × Bytes)
unpack_name payload name_len =
    let parts = cut_name payload name_len in
    if ltb max_filename_len name_len
    then err name_too_long
    else if ltb (length payload) (2 + name_len)
    then err truncated
    else parts

unfoldable pub unpack_first_chunk : Bytes → Result ClipFileError (Bytes × Bytes)
unfolding unpack_name
unpack_first_chunk payload =
    let unpacked = unpack_name payload (from_le (take 2 payload)) in
    if ltb (length payload) 2 then err truncated else unpacked
