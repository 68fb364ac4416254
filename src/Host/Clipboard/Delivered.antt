-- ===== src/Host/Clipboard/Delivered.antt =====
-- What is delivered does not depend on the state of the reassembly.
use wiredesk.Base.{ℕ, ◌≡◌, refl, inl, inr, Option, none, some, ◌==◌, Bool-cases}
use wiredesk.Base.Bytes.{Bytes}
use wiredesk.Base.Result.{Result, ok, err}
use wiredesk.Base.Utf8.{Utf8Error, from_utf8}
use wiredesk.Protocol.ClipFile.{ClipFileError, unpack_first_chunk}
use wiredesk.Host.Clipboard.{ClipboardSync, reset_reassembly}
use wiredesk.Host.Clipboard.Incoming.{
  Platform, Image, commit_string, commit_text, commit_decoded, commit_image, commit_unpacked,
  commit_file, path_of, deliver,
}

-- What is delivered does not depend on the counters of the reassembly.
commit_string-reset :
    (p : Platform) (s : ClipboardSync) (r : Result Utf8Error Bytes)
    → (reset_reassembly (commit_string p s r).0, (commit_string p s r).1)
      ≡ commit_string p (reset_reassembly s) r
commit_string-reset p s (ok text) = refl
commit_string-reset p s (err e) = refl

commit_decoded-reset :
    (p : Platform) (s : ClipboardSync) (o : Option Image)
    → (reset_reassembly (commit_decoded p s o).0, (commit_decoded p s o).1)
      ≡ commit_decoded p (reset_reassembly s) o
commit_decoded-reset p s none = refl
commit_decoded-reset p s (some img) = refl

commit_unpacked-reset :
    (p : Platform) (s : ClipboardSync) (r : Result ClipFileError (Bytes × Bytes))
    → (reset_reassembly (commit_unpacked p s r).0, (commit_unpacked p s r).1)
      ≡ commit_unpacked p (reset_reassembly s) r
commit_unpacked-reset p s (err e) = refl
commit_unpacked-reset p s (ok (name, content)) =
    elim (Bool-cases (p.creates_dir p.resolve_cache_dir)) [
      | inl t ↦ elim (Bool-cases (p.writes_file (path_of p name) content)) [
        | inl w ↦ rw (t, w) refl
        | inr w ↦ rw (t, w) refl
      ]
      | inr n ↦ rw n refl
    ]

pub deliver-reset :
    (p : Platform) (format : ℕ) (s : ClipboardSync) (buf : Bytes)
    → (reset_reassembly (deliver p format s buf).0, (deliver p format s buf).1)
      ≡ deliver p format (reset_reassembly s) buf
unfolding deliver commit_text commit_image commit_file
deliver-reset p format s buf = elim (Bool-cases (format == 0)) [
  | inl t ↦ rw t (commit_string-reset p s (from_utf8 buf))
  | inr n ↦ elim (Bool-cases (format == 1)) [
    | inl t ↦ rw (n, t) (commit_decoded-reset p s (p.decode_png_to_rgba buf))
    | inr m ↦ elim (Bool-cases (format == 2)) [
      | inl t ↦ rw (n, m, t) (commit_unpacked-reset p s (unpack_first_chunk buf))
      | inr k ↦ rw (n, m, k) refl
    ]
  ]
]
