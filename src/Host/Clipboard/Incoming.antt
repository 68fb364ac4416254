-- ===== src/Host/Clipboard/Incoming.antt =====
-- apps/wiredesk-host/src/clipboard.rs: what the peer's clipboard messages do, and the arms of
-- session.rs that pass them on. The calls of the operating system are in a `Platform`, which says
-- how each would end; the calls that were made are the list of effects.
use wiredesk.Base.{
  ℕ, suc, ◌+◌, ◌%◌, min, Bool, true, not, ◌&&◌, ◌||◌, List, [], ◌∷◌, ◌++◌, Option, none, some, ltb,
  leb, ◌==◌, if◌then◌else◌, length,
}
use wiredesk.Base.Bytes.{Bytes}
use wiredesk.Base.Result.{Result, ok, err}
use wiredesk.Base.Utf8.{Utf8Error, from_utf8}
use wiredesk.Protocol.ClipFile.{ClipFileError, unpack_first_chunk}
use wiredesk.Protocol.ClipFile.Sanitize.{Chars, sanitize_basename}
use wiredesk.Protocol.Message.{Message}
use wiredesk.Host.Clipboard.{
  format_text_utf8, format_png_image, format_file, max_clipboard_bytes, max_image_bytes,
  max_file_payload_bytes, LastKind, CachePath, declined, Received, insert, contains_key,
  ClipboardSync, push_warning, cancel_outgoing, reset_reassembly,
}

pub record Image : Type 0 where
  pub width : ℕ
  pub height : ℕ
  pub bytes : Bytes

-- The operating system, the PNG decoder, the hash of the standard library, and its characters of a
-- string.
pub record Platform : Type 0 where
  pub hash_bytes : Bytes → ℕ
  pub decode_png_to_rgba : Bytes → Option Image
  pub sets_text : Bytes → Bool
  pub sets_image : Image → Bool
  pub resolve_cache_dir : Chars
  pub creates_dir : Chars → Bool
  pub writes_file : CachePath → Bytes → Bool
  pub sets_cf_hdrop : CachePath → Bool
  pub chars : Bytes → Chars
  pub is_whitespace : ℕ → Bool

pub data Effect : Type 0 where
  set_text : (text : Bytes) → Effect
  set_image : (img : Image) → Effect
  create_dir : (dir : Chars) → Effect
  write_file : (path : CachePath) (content : Bytes) → Effect
  set_cf_hdrop : (path : CachePath) → Effect
  remove_file : (path : CachePath) → Effect

-- `if let Some(path) = self.in_flight_file_path.take()`.
abbrev pub removals : Option CachePath → List Effect
removals none = []
removals (some path) = remove_file path ∷ []

abbrev pub drop_in_flight : ClipboardSync → ClipboardSync × List Effect
drop_in_flight s = (record s { in_flight_file_path = none }, removals s.in_flight_file_path)

unfoldable pub reset : ClipboardSync → ClipboardSync × List Effect
reset s = drop_in_flight (record (reset_reassembly s) {
  pending_outbox = [];
  last = LastKind.nothing;
  outgoing_progress = 0;
  outgoing_total = 0;
})

abbrev pub is_known : ℕ → Bool
is_known format =
    (format == format_text_utf8) || (format == format_png_image) || (format == format_file)

abbrev pub cap : ℕ → ℕ
cap format =
    if format == format_png_image
    then max_image_bytes
    else if format == format_text_utf8
    then max_clipboard_bytes
    else max_file_payload_bytes

abbrev pub over_cap : ℕ → ℕ → Bool
over_cap format total_len = is_known format && ltb (cap format) total_len

-- The end of `on_offer`: the reassembly is armed.
abbrev pub arm : ClipboardSync → ℕ → ℕ → ClipboardSync
arm s format total_len = record s {
  expected_len = total_len;
  expected_format = format;
  received = [];
  received_total = 0;
  incoming_total = total_len;
  incoming_progress = 0;
}

abbrev pub Answer : Type 0
Answer = Option Message × List Effect

unfoldable pub on_offer : ClipboardSync → ℕ → ℕ → ClipboardSync × Answer
on_offer s format total_len =
    let dropped = drop_in_flight (reset_reassembly s) in
    if not (is_known format)
    then (reset_reassembly s, (none, []))
    else if (format == format_file) && not s.receive_files
    then (reset_reassembly s, (some (Message.clip_decline format), []))
    else if over_cap format total_len
    then (dropped.0, (none, dropped.1))
    else (arm s format total_len, (none, []))

-- Without a clipboard of the system, a payload counts as written.
abbrev pub wrote_ok : ClipboardSync → Bool → Bool
wrote_ok s done = not s.has_clip || done

abbrev pub stamp : ClipboardSync → Bool → LastKind → ClipboardSync
stamp s wrote kind = record s { last = if wrote then kind else s.last }

abbrev pub called : ClipboardSync → Effect → List Effect
called s effect = if s.has_clip then effect ∷ [] else []

-- The keys are `i`, `i + 1`, and so on.
abbrev pub contiguous : ℕ → Received → Bool
contiguous i [] = true
contiguous i ((k, held) ∷ rest) = (k == i) && contiguous (suc i) rest

abbrev pub concatenated : Received → Bytes
concatenated [] = []
concatenated ((k, held) ∷ rest) = held ++ concatenated rest

-- The path of a write that has begun, for `reset` to clean up behind a failure in it.
abbrev pub begin_write : ClipboardSync → CachePath → ClipboardSync
begin_write s path = record s { in_flight_file_path = some path }

module _ (p : Platform) where
  abbrev pub commit_string : ClipboardSync → Result Utf8Error Bytes → ClipboardSync × List Effect
  commit_string s (err e) = (s, [])
  commit_string s (ok text) = (
    stamp s (wrote_ok s (p.sets_text text)) (LastKind.text (p.hash_bytes text)),
    called s (set_text text),
  )

  unfoldable pub commit_text : ClipboardSync → Bytes → ClipboardSync × List Effect
  commit_text s buf = commit_string s (from_utf8 buf)

  abbrev pub commit_decoded : ClipboardSync → Option Image → ClipboardSync × List Effect
  commit_decoded s none = (s, [])
  commit_decoded s (some img) = (
    stamp s (wrote_ok s (p.sets_image img)) (LastKind.image (p.hash_bytes img.bytes)),
    called s (set_image img),
  )

  unfoldable pub commit_image : ClipboardSync → Bytes → ClipboardSync × List Effect
  commit_image s buf = commit_decoded s (p.decode_png_to_rgba buf)

  -- From the write of the file on, on Windows.
  abbrev pub write_content : ClipboardSync → CachePath → Bytes → ClipboardSync × List Effect
  write_content s path content =
      if not (p.writes_file path content)
      then (
        record s { in_flight_file_path = none },
        write_file path content ∷ remove_file path ∷ [],
      )
      else (
        record (stamp s (p.sets_cf_hdrop path) (LastKind.file (p.hash_bytes content))) {
          in_flight_file_path = none;
        },
        write_file path content ∷ set_cf_hdrop path ∷ [],
      )

  abbrev pub path_of : Bytes → CachePath
  path_of raw_name = record {
    dir = p.resolve_cache_dir;
    name = sanitize_basename p.is_whitespace (p.chars raw_name);
  }

  abbrev pub commit_unpacked :
      ClipboardSync → Result ClipFileError (Bytes × Bytes) → ClipboardSync × List Effect
  commit_unpacked s (err e) = (s, [])
  commit_unpacked s (ok (raw_name, content)) =
      let path = path_of raw_name in
      let written = write_content (begin_write s path) path content in
      let dir = create_dir p.resolve_cache_dir in
      if not (p.creates_dir p.resolve_cache_dir)
      then (s, dir ∷ [])
      else (written.0, dir ∷ written.1)

  unfoldable pub commit_file : ClipboardSync → Bytes → ClipboardSync × List Effect
  commit_file s buf = commit_unpacked s (unpack_first_chunk buf)

  -- The `match self.expected_format` of `commit`.
  unfoldable pub deliver : ℕ → ClipboardSync → Bytes → ClipboardSync × List Effect
  deliver format s buf =
      if format == format_text_utf8
      then commit_text s buf
      else if format == format_png_image
      then commit_image s buf
      else if format == format_file
      then commit_file s buf
      else (s, [])

  -- `commit` from the check of the length on.
  abbrev pub commit_buffer : ClipboardSync → Bytes → ClipboardSync × List Effect
  commit_buffer s buf =
      let delivered = deliver s.expected_format (record s { received = [] }) buf in
      if length buf % 4294967296 == s.expected_len
      then (reset_reassembly delivered.0, delivered.1)
      else (reset_reassembly s, [])

  unfoldable pub commit : ClipboardSync → ClipboardSync × List Effect
  commit s =
      if contiguous 0 s.received
      then commit_buffer s (concatenated s.received)
      else (reset_reassembly s, [])

  -- `on_chunk` up to the question whether all is there. Only a new index counts, in a `u32` that
  -- stops at its end.
  abbrev pub keep : ClipboardSync → ℕ → Bytes → ClipboardSync
  keep s index bytes =
      let added = length bytes % 4294967296 in
      let seen = contains_key index s.received in
      record s {
        received = insert index bytes s.received;
        received_total =
            if seen then s.received_total else min (s.received_total + added) 4294967295;
        incoming_progress =
            if seen
            then s.incoming_progress
            else (s.incoming_progress + added) % 18446744073709551616;
      }

  abbrev pub commit_if_complete : ClipboardSync → ClipboardSync × List Effect
  commit_if_complete s = if leb s.expected_len s.received_total then commit s else (s, [])

  unfoldable pub on_chunk : ClipboardSync → ℕ → Bytes → ClipboardSync × List Effect
  unfolding commit
  on_chunk s index bytes =
      if s.expected_len == 0 then (s, []) else commit_if_complete (keep s index bytes)

  -- The clipboard's arms of `handle_packet` in session.rs. The message is the answer to send.
  unfoldable pub on_message : ClipboardSync → Message → ClipboardSync × Answer
  unfolding on_offer on_chunk
  on_message s (Message.clip_offer format total_len) = on_offer s format total_len
  on_message s (Message.clip_chunk index bytes) =
      let chunk = on_chunk s index bytes in (chunk.0, (none, chunk.1))
  on_message s (Message.clip_decline format) =
      let cancelled = (cancel_outgoing s).0 in
      (
        (if format == format_file then push_warning cancelled (declined format) else cancelled),
        (none, []),
      )
  on_message s _ = (s, (none, []))
