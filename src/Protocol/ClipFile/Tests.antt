-- ===== src/Protocol/ClipFile/Tests.antt =====
-- The clipboard file header at concrete names.
use wiredesk.Base.{ℕ, ◌<◌, ◌≤◌, ◌≡◌, refl, [], ◌∷◌, Bool, ◌==◌, length, All, arith}
use wiredesk.Base.Bytes.{Bytes}
use wiredesk.Base.Result.{ok, err}
use wiredesk.Base.Utf8.{IsUtf8, from_utf8}
use wiredesk.Protocol.ClipFile.Sanitize.{
  sanitize_basename, strip_drive_letter, segments, last_kept, finish,
}
use wiredesk.Protocol.ClipFile.Basename.{IsAllowed, sanitize_basename-IsAllowed}
use wiredesk.Protocol.ClipFile.{
  pack_first_chunk, unpack_first_chunk, unpack_name, name_too_long, empty_name,
}
use wiredesk.Protocol.ClipFile.RoundTrip.{packed, unpack-pack, unpack_sound}

-- "aé", and two bytes of content.
abbrev name : Bytes
name = 0x61 ∷ 0xc3 ∷ 0xa9 ∷ []

abbrev payload : Bytes
payload = 3 ∷ 0 ∷ 0x61 ∷ 0xc3 ∷ 0xa9 ∷ 1 ∷ 2 ∷ []

name-IsUtf8 : IsUtf8 name
unfolding from_utf8
name-IsUtf8 = refl

pack_first_chunk-empty : pack_first_chunk [] (1 ∷ []) ≡ err empty_name
unfolding pack_first_chunk
pack_first_chunk-empty = refl

unpack_first_chunk-long : unpack_first_chunk (1 ∷ 0x10 ∷ []) ≡ err name_too_long
unfolding unpack_first_chunk unpack_name
unpack_first_chunk-long = refl

unpack_first_chunk-payload : unpack_first_chunk payload ≡ ok (name, 1 ∷ 2 ∷ [])
unfolding unpack_first_chunk unpack_name from_utf8
unpack_first_chunk-payload = refl

unpack-pack_example :
    (bytes : Bytes) × (pack_first_chunk name (1 ∷ 2 ∷ []) ≡ ok bytes)
    × (unpack_first_chunk bytes ≡ ok (name, 1 ∷ 2 ∷ []))
unpack-pack_example = unpack-pack name (1 ∷ 2 ∷ []) name-IsUtf8 (omega arith) (omega arith)

unpack_sound_example : (payload ≡ packed name (1 ∷ 2 ∷ [])) × IsUtf8 name × (3 ≤ 4096)
unpack_sound_example =
    unpack_sound payload name (1 ∷ 2 ∷ [])
      (
        omega arith,
        (
          omega arith,
          (omega arith, (omega arith, (omega arith, (omega arith, (omega arith, tt))))),
        ),
      )
      unpack_first_chunk-payload

abbrev is_space : ℕ → Bool
is_space c = c == 32

-- "../a/CON.txt" becomes "_CON.txt".
sanitize_basename-reserved :
    sanitize_basename is_space (46 ∷ 46 ∷ 47 ∷ 97 ∷ 47 ∷ 67 ∷ 79 ∷ 78 ∷ 46 ∷ 116 ∷ 120 ∷ 116 ∷ [])
    ≡ 95 ∷ 67 ∷ 79 ∷ 78 ∷ 46 ∷ 116 ∷ 120 ∷ 116 ∷ []
unfolding sanitize_basename strip_drive_letter segments last_kept finish
sanitize_basename-reserved = refl

-- ":.." becomes "..", the parent directory.
sanitize_basename-parent : sanitize_basename is_space (58 ∷ 46 ∷ 46 ∷ []) ≡ 46 ∷ 46 ∷ []
unfolding sanitize_basename strip_drive_letter segments last_kept finish
sanitize_basename-parent = refl

sanitize_basename-IsAllowed_example :
    All IsAllowed (sanitize_basename is_space (97 ∷ 92 ∷ 98 ∷ 63 ∷ []))
    × (0 < length (sanitize_basename is_space (97 ∷ 92 ∷ 98 ∷ 63 ∷ [])))
sanitize_basename-IsAllowed_example = sanitize_basename-IsAllowed is_space (97 ∷ 92 ∷ 98 ∷ 63 ∷ [])
