-- ===== src/Protocol/ClipFile/Sanitize.antt =====
-- crates/wiredesk-protocol/src/clip_file.rs: `sanitize_basename`, over the characters of a name as
-- code points. `char::is_whitespace` is the standard library's, and a parameter.
use wiredesk.Base.{
  ℕ, ◌-◌, Bool, true, false, not, ◌&&◌, ◌||◌, List, [], ◌∷◌, ◌++◌, Option, none, some, map, leb,
  ◌==◌, if◌then◌else◌,
}

abbrev pub Chars : Type 0
Chars = List ℕ

-- "clipboard.bin"
abbrev pub fallback_basename : Chars
fallback_basename = 99 ∷ 108 ∷ 105 ∷ 112 ∷ 98 ∷ 111 ∷ 97 ∷ 114 ∷ 100 ∷ 46 ∷ 98 ∷ 105 ∷ 110 ∷ []

abbrev pub same : Chars → Chars → Bool
same [] [] = true
same [] (d ∷ ds) = false
same (c ∷ cs) [] = false
same (c ∷ cs) (d ∷ ds) = (c == d) && same cs ds

-- "CON", "PRN", "AUX", "NUL", "COM1" to "COM9", "LPT1" to "LPT9"
abbrev pub ntfs_reserved : List Chars
ntfs_reserved =
    (67 ∷ 79 ∷ 78 ∷ [])
    ∷ (80 ∷ 82 ∷ 78 ∷ [])
    ∷ (65 ∷ 85 ∷ 88 ∷ [])
    ∷ (78 ∷ 85 ∷ 76 ∷ [])
    ∷ (67 ∷ 79 ∷ 77 ∷ 49 ∷ [])
    ∷ (67 ∷ 79 ∷ 77 ∷ 50 ∷ [])
    ∷ (67 ∷ 79 ∷ 77 ∷ 51 ∷ [])
    ∷ (67 ∷ 79 ∷ 77 ∷ 52 ∷ [])
    ∷ (67 ∷ 79 ∷ 77 ∷ 53 ∷ [])
    ∷ (67 ∷ 79 ∷ 77 ∷ 54 ∷ [])
    ∷ (67 ∷ 79 ∷ 77 ∷ 55 ∷ [])
    ∷ (67 ∷ 79 ∷ 77 ∷ 56 ∷ [])
    ∷ (67 ∷ 79 ∷ 77 ∷ 57 ∷ [])
    ∷ (76 ∷ 80 ∷ 84 ∷ 49 ∷ [])
    ∷ (76 ∷ 80 ∷ 84 ∷ 50 ∷ [])
    ∷ (76 ∷ 80 ∷ 84 ∷ 51 ∷ [])
    ∷ (76 ∷ 80 ∷ 84 ∷ 52 ∷ [])
    ∷ (76 ∷ 80 ∷ 84 ∷ 53 ∷ [])
    ∷ (76 ∷ 80 ∷ 84 ∷ 54 ∷ [])
    ∷ (76 ∷ 80 ∷ 84 ∷ 55 ∷ [])
    ∷ (76 ∷ 80 ∷ 84 ∷ 56 ∷ [])
    ∷ (76 ∷ 80 ∷ 84 ∷ 57 ∷ [])
    ∷ []

abbrev pub is_letter : ℕ → Bool
is_letter c = (leb 65 c && leb c 90) || (leb 97 c && leb c 122)

unfoldable pub strip_drive_letter : Chars → Chars
strip_drive_letter [] = []
strip_drive_letter (c ∷ []) = c ∷ []
strip_drive_letter (c ∷ d ∷ rest) = if (d == 58) && is_letter c then rest else c ∷ d ∷ rest

-- '/' and '\\'
abbrev pub is_separator : ℕ → Bool
is_separator c = (c == 47) || (c == 92)

-- `split`, with the segment read so far.
unfoldable pub segments : Chars → Chars → List Chars
segments held [] = held ∷ []
segments held (c ∷ cs) =
    let rest = segments [] cs in
    let more = segments (held ++ c ∷ []) cs in if is_separator c then held ∷ rest else more

-- A segment that is not empty and not "..".
abbrev pub is_kept : Chars → Bool
is_kept s = not (same s []) && not (same s (46 ∷ 46 ∷ []))

abbrev pub or_else : Option Chars → Option Chars → Option Chars
or_else (some t) other = some t
or_else none other = other

-- `rfind`, and `unwrap_or("")`.
unfoldable pub last_kept : List Chars → Option Chars
last_kept [] = none
last_kept (s ∷ ss) = or_else (last_kept ss) (if is_kept s then some s else none)

abbrev pub or_empty : Option Chars → Chars
or_empty none = []
or_empty (some s) = s

-- The characters < > : " | ? * and NUL, which the code replaces.
abbrev pub is_illegal : ℕ → Bool
is_illegal c =
    (c == 60)
    || (c == 62)
    || (c == 58)
    || (c == 34)
    || (c == 124)
    || (c == 63)
    || (c == 42)
    || (c == 0)

abbrev pub escape : ℕ → ℕ
escape c = if is_illegal c then 95 else c

abbrev pub to_ascii_uppercase : ℕ → ℕ
to_ascii_uppercase c = if leb 97 c && leb c 122 then c - 32 else c

-- What stands before the first '.'.
abbrev pub stem_of : Chars → Chars
stem_of [] = []
stem_of (c ∷ cs) = let rest = stem_of cs in if c == 46 then [] else c ∷ rest

abbrev pub is_among : Chars → List Chars → Bool
is_among s [] = false
is_among s (r ∷ rs) = same r s || is_among s rs

abbrev pub dodge_reserved : Chars → Chars
dodge_reserved escaped =
    if is_among (map to_ascii_uppercase (stem_of escaped)) ntfs_reserved
    then 95 ∷ escaped
    else escaped

unfoldable pub finish : Chars → Chars
finish [] = fallback_basename
finish (c ∷ cs) = dodge_reserved (map escape (c ∷ cs))

module _ (is_whitespace : ℕ → Bool) where
  abbrev pub trim_front : Chars → Chars
  trim_front [] = []
  trim_front (c ∷ cs) =
      let rest = trim_front cs in if (c == 58) || is_whitespace c then rest else c ∷ cs

  abbrev pub trim_end : Chars → Chars
  trim_end [] = []
  trim_end (c ∷ cs) =
      let rest = trim_end cs in if same rest [] && is_whitespace c then [] else c ∷ rest

  unfoldable pub sanitize_basename : Chars → Chars
  unfolding strip_drive_letter segments last_kept finish
  sanitize_basename raw =
      finish (trim_end (trim_front (or_empty (last_kept (segments [] (strip_drive_letter raw))))))
