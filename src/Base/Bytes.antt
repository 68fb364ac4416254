-- ===== src/Base/Bytes.antt =====
-- Byte strings, and the little-endian words of `to_le_bytes` and `from_le_bytes`.
use Prim.Native.Nat.{ℕ, zero, suc, ◌+◌, ◌*◌, ◌/◌, ◌%◌, ◌^◌, ◌<◌}
use mathlib.Core.Path.{◌≡◌, refl}
use mathlib.Core.List.{List, [], ◌∷◌}
use native.Mathlib.Nat.{pow-suc}
use native.Mathlib.Omega.{arith}
use wiredesk.Base.Lists.{length, All, get_or, take, drop, All-drop}

abbrev pub Bytes : Type 0
Bytes = List ℕ

abbrev pub IsByte : ℕ → Type 0
IsByte b = b < 256

abbrev pub AreBytes : Bytes → Type 0
AreBytes = All IsByte

-- `x.to_le_bytes()` for a word of `n` bytes.
abbrev pub le_bytes : ℕ → ℕ → Bytes
le_bytes zero x = []
le_bytes (suc n) x = x % 256 ∷ le_bytes n (x / 256)

-- `from_le_bytes`.
abbrev pub from_le : Bytes → ℕ
from_le [] = 0
from_le (b ∷ bs) = b + 256 * from_le bs

pub from_le-le_bytes : (n x : ℕ) → x < 256 ^ n → from_le (le_bytes n x) ≡ x
from_le-le_bytes zero x h = omega arith
from_le-le_bytes (suc n) x h =
    omega (arith, pow-suc 256 n, from_le-le_bytes n (x / 256) (omega (arith, pow-suc 256 n)))

pub le_bytes-AreBytes : (n x : ℕ) → AreBytes (le_bytes n x)
le_bytes-AreBytes zero x = tt
le_bytes-AreBytes (suc n) x = (omega arith, le_bytes-AreBytes n (x / 256))

pub length-le_bytes : (n x : ℕ) → length (le_bytes n x) ≡ n
length-le_bytes zero x = refl
length-le_bytes (suc n) x = omega (arith, length-le_bytes n (x / 256))

pub from_le-lt : (bs : Bytes) → AreBytes bs → from_le bs < 256 ^ length bs
from_le-lt [] h = omega arith
from_le-lt (b ∷ bs) h = omega (arith, pow-suc 256 (length bs), from_le-lt bs h.1, h.0)

-- The bytes at a place of a byte string are bytes, and a word read there has its width.
pub get_or-IsByte : (bs : Bytes) (i : ℕ) → AreBytes bs → IsByte (get_or bs i 0)
get_or-IsByte [] i h = omega arith
get_or-IsByte (b ∷ bs) zero h = h.0
get_or-IsByte (b ∷ bs) (suc i) h = get_or-IsByte bs i h.1

from_le-take-lt : (n : ℕ) (bs : Bytes) → AreBytes bs → from_le (take n bs) < 256 ^ n
from_le-take-lt zero bs h = omega arith
from_le-take-lt (suc n) [] h = omega (arith, pow-suc 256 n, from_le-take-lt n [] tt)
from_le-take-lt (suc n) (b ∷ bs) h = omega (arith, pow-suc 256 n, from_le-take-lt n bs h.1, h.0)

pub word_at-lt : (n i : ℕ) (bs : Bytes) → AreBytes bs → from_le (take n (drop i bs)) < 256 ^ n
word_at-lt n i bs h = from_le-take-lt n (drop i bs) (All-drop IsByte i bs h)
