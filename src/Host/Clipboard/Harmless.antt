-- ===== src/Host/Clipboard/Harmless.antt =====
-- What delivering a payload calls of the system.
use wiredesk.Base.{
  ℕ, ◌+◌, ◌-◌, ◌≤◌, ◌<◌, ◌≡◌, refl, ap, ◌∙◌, Bool, true, false, inl, inr, List, [], ◌∷◌, Option,
  none, some, ltb, ◌==◌, if◌then◌else◌, length, take, drop, All, length-drop, Bool-cases, arith,
}
use wiredesk.Base.Bytes.{Bytes, from_le}
use wiredesk.Base.Result.{Result, ok, err, ◌>>=◌, map_err}
use wiredesk.Base.Utf8.{Utf8Error, IsUtf8, from_utf8, from_utf8-ok}
use wiredesk.Protocol.ClipFile.{ClipFileError, unpack_first_chunk}
use wiredesk.Protocol.ClipFile.RoundTrip.{unpack_name-checked}
use wiredesk.Protocol.ClipFile.Basename.{IsAllowed, sanitize_basename-IsAllowed}
use wiredesk.Host.Clipboard.{CachePath, ClipboardSync}
use wiredesk.Host.Clipboard.Incoming.{
  Platform, Image, Effect, set_text, set_image, create_dir, write_file, set_cf_hdrop, remove_file,
  cap, commit_string, commit_text, commit_decoded, commit_image, write_content, path_of,
  begin_write, commit_unpacked, commit_file, deliver,
}
use wiredesk.Host.Clipboard.Delivery.{cap-le}

cut-length :
    (payload : Bytes) (n : ℕ) (r : Result Utf8Error Bytes) {name content : Bytes}
    → (◌>>=◌ {B = Bytes × Bytes}
        (map_err (λ _. ClipFileError.bad_utf8) r)
        (λ t. ok (t, drop (2 + n) payload)))
      ≡ ok (name, content)
    → length content ≡ length payload - (2 + n)
cut-length payload n (ok t) {name} {content} e =
    let same : drop (2 + n) payload ≡ content = cc e in
    omega (arith, ap length same, length-drop (2 + n) payload)
cut-length payload n (err f) e = cc

-- The name's length takes two bytes.
unpack-length :
    (payload name content : Bytes)
    → unpack_first_chunk payload ≡ ok (name, content)
    → length content + 2 ≤ length payload
unfolding unpack_first_chunk
unpack-length payload name content e = elim (Bool-cases (ltb (length payload) 2)) [
  | inl t ↦ cc (rw t at e)
  | inr n ↦
      let size = from_le (take 2 payload) in
      let checked = unpack_name-checked payload size (rw n at e) in
      omega
        (arith, checked, cut-length payload size (from_utf8 (take size (drop 2 payload))) checked.2)
]

module _ (p : Platform) where
  -- The cache directory, joined with a name of one component.
  abbrev pub IsCached : CachePath → Type 0
  IsCached path =
      (path.dir ≡ p.resolve_cache_dir) × All IsAllowed path.name × (0 < length path.name)

  -- What a peer may cause.
  abbrev pub IsHarmless : Effect → Type 0
  IsHarmless (set_text text) = IsUtf8 text × (length text ≤ 262144)
  IsHarmless (set_image img) =
      (buf : Bytes) × (p.decode_png_to_rgba buf ≡ some img) × (length buf ≤ 20971520)
  IsHarmless (create_dir dir) = dir ≡ p.resolve_cache_dir
  IsHarmless (write_file path content) = IsCached path × (length content ≤ 20975616)
  IsHarmless (set_cf_hdrop path) = IsCached path
  IsHarmless (remove_file path) = IsCached path

  -- A step that leaves no path of a write behind, and calls the system without harm.
  abbrev pub Safe : ClipboardSync × List Effect → Type 0
  Safe d = (d.0.in_flight_file_path ≡ none) × All IsHarmless d.1

  path_of-IsCached : (name : Bytes) → IsCached (path_of p name)
  path_of-IsCached name =
      let allowed = sanitize_basename-IsAllowed p.is_whitespace (p.chars name) in
      (refl, allowed.0, allowed.1)

  commit_string-Safe :
      (s : ClipboardSync) (buf : Bytes) (r : Result Utf8Error Bytes)
      → from_utf8 buf ≡ r
      → length buf ≤ 262144
      → s.in_flight_file_path ≡ none
      → Safe (commit_string p s r)
  commit_string-Safe s buf (err e) h c n = (n, tt)
  commit_string-Safe s buf (ok text) h c n = (n, called-text s.has_clip)
    where
      called-text : (b : Bool) → All IsHarmless (if b then set_text text ∷ [] else [])
      called-text true =
          let same : text ≡ buf = from_utf8-ok buf h in
          ((ap from_utf8 same ∙ h, omega (arith, ap length same)), tt)
      called-text false = tt

  commit_decoded-Safe :
      (s : ClipboardSync) (buf : Bytes) (o : Option Image)
      → p.decode_png_to_rgba buf ≡ o
      → length buf ≤ 20971520
      → s.in_flight_file_path ≡ none
      → Safe (commit_decoded p s o)
  commit_decoded-Safe s buf none h c n = (n, tt)
  commit_decoded-Safe s buf (some img) h c n = (n, called-image s.has_clip)
    where
      called-image : (b : Bool) → All IsHarmless (if b then set_image img ∷ [] else [])
      called-image true = ((buf, h, c), tt)
      called-image false = tt

  write_content-Safe :
      (s : ClipboardSync) (path : CachePath) (content : Bytes)
      → IsCached path
      → length content ≤ 20975616
      → Safe (write_content p s path content)
  write_content-Safe s path content h c = elim (Bool-cases (p.writes_file path content)) [
    | inl t ↦ rw t (refl, ((h, c), (h, tt)))
    | inr n ↦ rw n (refl, ((h, c), (h, tt)))
  ]

  commit_unpacked-Safe :
      (s : ClipboardSync) (r : Result ClipFileError (Bytes × Bytes))
      → ((name content : Bytes) → r ≡ ok (name, content) → length content ≤ 20975616)
      → s.in_flight_file_path ≡ none
      → Safe (commit_unpacked p s r)
  commit_unpacked-Safe s (err e) c n = (n, tt)
  commit_unpacked-Safe s (ok (name, content)) c n =
      elim (Bool-cases (p.creates_dir p.resolve_cache_dir)) [
        | inl t ↦
            let written =
              write_content-Safe (begin_write s (path_of p name)) (path_of p name) content
                (path_of-IsCached name) (c name content refl) in
            rw t (written.0, (refl, written.1))
        | inr m ↦ rw m (n, (refl, tt))
      ]

  pub deliver-Safe :
      (s : ClipboardSync) (format : ℕ) (buf : Bytes)
      → length buf ≤ cap format
      → s.in_flight_file_path ≡ none
      → Safe (deliver p format s buf)
  unfolding deliver commit_text commit_image commit_file
  deliver-Safe s format buf c n = elim (Bool-cases (format == 0)) [
    | inl t ↦ rw t (commit_string-Safe s buf (from_utf8 buf) refl (ground arith) n)
    | inr a ↦ elim (Bool-cases (format == 1)) [
      | inl t ↦
          rw (a, t) (commit_decoded-Safe s buf (p.decode_png_to_rgba buf) refl (ground arith) n)
      | inr b ↦ elim (Bool-cases (format == 2)) [
        | inl t ↦
            rw (a, b, t)
              (commit_unpacked-Safe s (unpack_first_chunk buf)
                (λ name content e. omega (arith, unpack-length buf name content e, cap-le format))
                n)
        | inr d ↦ rw (a, b, d) (n, tt)
      ]
    ]
  ]
