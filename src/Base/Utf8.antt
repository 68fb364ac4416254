-- ===== src/Base/Utf8.antt =====
-- `std::str::from_utf8`: which byte strings are text, and how a bad one is reported. A `String` of
-- the program is the list of its UTF-8 bytes.
use wiredesk.Base.Bools.{leb, ◌==◌, if◌then◌else◌}
use wiredesk.Base.Bytes.{Bytes}
use wiredesk.Base.Lists.{length}
use wiredesk.Base.Result.{Result, ok, err}
use Prim.Native.Nat.{ℕ, ◌+◌, max}
use mathlib.Core.Path.{◌≡◌}
use native.Mathlib.Omega.{arith}
use mathlib.Core.Bool.{Bool, ◌&&◌}
use mathlib.Core.List.{[], ◌∷◌, ◌++◌}
use mathlib.Core.Option.{Option, none, some}

-- What the bytes of a character begun so far are.
pub data Shape : Type 0 where
  complete partial invalid : Shape

abbrev within : ℕ → ℕ → ℕ → Bool
within lo hi b = leb lo b && leb b hi

-- A continuation byte.
abbrev continues : ℕ → Bool
continues = within 0x80 0xbf

-- The second bytes that may follow a first byte: no overlong form, no surrogate, nothing past
-- U+10FFFF.
abbrev second_fits : ℕ → ℕ → Bool
second_fits a b =
    if a == 0xe0
    then within 0xa0 0xbf b
    else if a == 0xed
    then within 0x80 0x9f b
    else if a == 0xf0
    then within 0x90 0xbf b
    else if a == 0xf4
    then within 0x80 0x8f b
    else continues b

unfoldable pub shape : Bytes → Shape
shape [] = partial
shape (a ∷ []) = if leb a 0x7f then complete else if within 0xc2 0xf4 a then partial else invalid
shape (a ∷ b ∷ []) = if second_fits a b then (if leb a 0xdf then complete else partial) else invalid
shape (a ∷ b ∷ c ∷ []) = if continues c then (if leb a 0xef then complete else partial) else invalid
shape (a ∷ b ∷ c ∷ d ∷ []) = if continues d then complete else invalid
shape (a ∷ b ∷ c ∷ d ∷ _ ∷ _) = invalid

-- `Utf8Error`: `error_len` is `none` where the input stops inside a character.
pub record Utf8Error : Type 0 where
  pub valid_up_to : ℕ
  pub error_len : Option ℕ

-- The check from a character on: `held` are its bytes so far, `valid` the bytes before it. The
-- byte that breaks a character is not among the bad ones, unless it stands alone.
pub scan : Bytes → ℕ → Bytes → Option Utf8Error
scan [] valid [] = none
scan (h ∷ held) valid [] = some (record { valid_up_to = valid; error_len = none })
scan held valid (b ∷ rest) =
    let next = scan [] (valid + length (held ++ b ∷ [])) rest in
    let more = scan (held ++ b ∷ []) valid rest in
    elim (shape (held ++ b ∷ [])) [
      | complete ↦ next
      | partial ↦ more
      | invalid ↦ some (record { valid_up_to = valid; error_len = some (max 1 (length held)) })
    ]

unfoldable pub from_utf8 : Bytes → Result Utf8Error Bytes
unfolding shape scan
from_utf8 s = elim (scan [] 0 s) [ none ↦ ok s | some e ↦ err e ]

abbrev pub IsUtf8 : Bytes → Type 0
IsUtf8 s = from_utf8 s ≡ ok s

pub from_utf8-ok : (s : Bytes) {t : Bytes} → from_utf8 s ≡ ok t → t ≡ s
unfolding from_utf8
from_utf8-ok s h = ground arith
