-- ===== src/Protocol/ClipFile/Basename.antt =====
-- What a sanitized basename is safe from.
use wiredesk.Base.{
  ℕ, ◌<◌, ◌≡◌, ◌≢◌, refl, Bool, true, false, not, ◌&&◌, ◌||◌, List, [], ◌∷◌, ◌++◌, Option, none,
  some, map, ◌==◌, if◌then◌else◌, Bool-cases, inl, inr, length, All, All-append, arith,
}
use wiredesk.Protocol.ClipFile.Sanitize.{
  Chars, same, fallback_basename, strip_drive_letter, is_separator, segments, is_kept, or_else,
  last_kept, or_empty, is_illegal, escape, stem_of, is_among, to_ascii_uppercase, ntfs_reserved,
  finish, trim_front, trim_end, sanitize_basename,
}

abbrev pub InSegment : ℕ → Type 0
InSegment c = is_separator c ≡ false

-- None of / \ < > : " | ? * and NUL, by their code points.
abbrev pub IsAllowed : ℕ → Type 0
IsAllowed c =
    (c ≢ 47)
    × (c ≢ 92)
    × (c ≢ 60)
    × (c ≢ 62)
    × (c ≢ 58)
    × (c ≢ 34)
    × (c ≢ 124)
    × (c ≢ 63)
    × (c ≢ 42)
    × (c ≢ 0)

segments-InSegment : (held cs : Chars) → All InSegment held → All (All InSegment) (segments held cs)
unfolding segments
segments-InSegment held [] h = (h, tt)
segments-InSegment held (c ∷ cs) h = elim (Bool-cases (is_separator c)) [
  | inl s ↦ rw s (h, segments-InSegment [] cs tt)
  | inr n ↦
      rw n (segments-InSegment (held ++ c ∷ []) cs (All-append InSegment held (c ∷ []) h (n, tt)))
]

abbrev Within : Option Chars → Type 0
Within o = All InSegment (or_empty o)

or_else-Within : (a b : Option Chars) → Within a → Within b → Within (or_else a b)
or_else-Within none b h k = k
or_else-Within (some t) b h k = h

kept-Within : (s : Chars) (b : Bool) → All InSegment s → Within (if b then some s else none)
kept-Within s true h = h
kept-Within s false h = tt

last_kept-Within : (ss : List Chars) → All (All InSegment) ss → Within (last_kept ss)
unfolding last_kept
last_kept-Within [] h = tt
last_kept-Within (s ∷ ss) h =
    or_else-Within (last_kept ss) (if is_kept s then some s else none) (last_kept-Within ss h.1)
      (kept-Within s (is_kept s) h.0)

module _ (is_whitespace : ℕ → Bool) where
  trim_front-InSegment :
      (cs : Chars) → All InSegment cs → All InSegment (trim_front is_whitespace cs)
  trim_front-InSegment [] h = tt
  trim_front-InSegment (c ∷ cs) h = elim (Bool-cases ((c == 58) || is_whitespace c)) [
    | inl t ↦ rw t (trim_front-InSegment cs h.1)
    | inr f ↦ rw f h
  ]

  trim_end-InSegment : (cs : Chars) → All InSegment cs → All InSegment (trim_end is_whitespace cs)
  trim_end-InSegment [] h = tt
  trim_end-InSegment (c ∷ cs) h =
      elim (Bool-cases (same (trim_end is_whitespace cs) [] && is_whitespace c)) [
        | inl t ↦ rw t tt
        | inr f ↦ rw f (h.0, trim_end-InSegment cs h.1)
      ]

allowed : (c : ℕ) → is_separator c ≡ false → is_illegal c ≡ false → IsAllowed c
allowed c s h = (
  (λ e. ground arith),
  (λ e. ground arith),
  (λ e. ground arith),
  (λ e. ground arith),
  (λ e. ground arith),
  (λ e. ground arith),
  (λ e. ground arith),
  (λ e. ground arith),
  (λ e. ground arith),
  (λ e. ground arith),
)

escape-IsAllowed : (c : ℕ) → InSegment c → IsAllowed (escape c)
escape-IsAllowed c h = elim (Bool-cases (is_illegal c)) [
  | inl t ↦ rw t (allowed 95 refl refl)
  | inr f ↦ rw f (allowed c h f)
]

escaped-IsAllowed : (cs : Chars) → All InSegment cs → All IsAllowed (map escape cs)
escaped-IsAllowed [] h = tt
escaped-IsAllowed (c ∷ cs) h = (escape-IsAllowed c h.0, escaped-IsAllowed cs h.1)

none_separates : Chars → Bool
none_separates [] = true
none_separates (c ∷ cs) = not (is_separator c) && none_separates cs

inside : (cs : Chars) → none_separates cs ≡ true → All InSegment cs
unfolding none_separates
inside [] h = tt
inside (c ∷ cs) h = (ground arith, inside cs (ground arith))

finish-IsAllowed :
    (cs : Chars) → All InSegment cs → All IsAllowed (finish cs) × (0 < length (finish cs))
unfolding finish none_separates
finish-IsAllowed [] h =
    (escaped-IsAllowed fallback_basename (inside fallback_basename refl), omega arith)
finish-IsAllowed (c ∷ cs) h =
    elim (Bool-cases
      (is_among (map to_ascii_uppercase (stem_of (map escape (c ∷ cs)))) ntfs_reserved)) [
        | inl t ↦ rw t ((allowed 95 refl refl, escaped-IsAllowed (c ∷ cs) h), omega arith)
        | inr f ↦ rw f (escaped-IsAllowed (c ∷ cs) h, omega arith)
      ]

-- Whatever name the peer sends and whatever counts as whitespace, the basename is not empty and has
-- none of / \ < > : " | ? * and no NUL. Control characters and the names "." and ".." are not
-- excluded.
pub sanitize_basename-IsAllowed :
    (is_whitespace : ℕ → Bool) (raw : Chars)
    → All IsAllowed (sanitize_basename is_whitespace raw)
      × (0 < length (sanitize_basename is_whitespace raw))
unfolding sanitize_basename
sanitize_basename-IsAllowed is_whitespace raw = finish-IsAllowed _ (
    trim_end-InSegment is_whitespace _ (
      trim_front-InSegment is_whitespace _
        (last_kept-Within _ (segments-InSegment [] (strip_drive_letter raw) tt))))
