-- ===== src/Host/Clipboard/Outgoing.antt =====
-- apps/wiredesk-host/src/clipboard.rs: what the host's own clipboard sends. A `Local` is what the
-- calls of the operating system and of the PNG encoder would give; instants are milliseconds.
use wiredesk.Base.{
  ℕ, ◌+◌, ◌-◌, ◌%◌, ◌/◌, not, List, [], ◌∷◌, ◌++◌, Option, none, some, ltb, ◌==◌, if◌then◌else◌,
  length, take, drop,
}
use wiredesk.Base.Bytes.{Bytes}
use wiredesk.Base.Result.{Result, ok, err}
use wiredesk.Protocol.ClipFile.{ClipFileError, pack_first_chunk}
use wiredesk.Protocol.Message.{Message}
use wiredesk.Host.Clipboard.{
  max_clipboard_bytes, max_messages_per_poll, max_image_bytes, max_file_bytes, format_text_utf8,
  format_png_image, format_file, text, image, oversize_image, oversize_file, matches_text_hash,
  matches_image_hash, matches_file_hash, image_too_large, check_image_size, check_file_size,
  format_oversize_file_toast, build_offer_and_chunks, ClipboardSync, is_empty,
}
use wiredesk.Host.Clipboard.Incoming.{Image}

abbrev pub clip_poll_interval : ℕ
clip_poll_interval = 500

-- A file that the clipboard points at: its basename, where it is UTF-8, its size and content, where
-- they can be read, and its path.
pub record LocalFile : Type 0 where
  pub name : Option Bytes
  pub size : Option ℕ
  pub content : Option Bytes
  pub path : Bytes

pub record Local : Type 0 where
  pub hash_bytes : Bytes → ℕ
  pub encode_rgba_to_png : Image → Option Bytes
  pub get_text : Option Bytes
  pub get_image : Option Image
  pub clipboard_seq : ℕ
  pub poll_cf_hdrop : Option LocalFile

pub data FilePollOutcome : Type 0 where
  ready : (name : Bytes) (hash : ℕ) (packed : Bytes) → FilePollOutcome
  oversize : (path_hash size_bytes : ℕ) → FilePollOutcome
  skipped : FilePollOutcome

abbrev pub pack_content : (Bytes → ℕ) → Bytes → Bytes → Result ClipFileError Bytes → FilePollOutcome
pack_content hash_bytes name content (ok packed) = ready name (hash_bytes content) packed
pack_content hash_bytes name content (err e) = skipped

abbrev pub pack_read : (Bytes → ℕ) → Bytes → Option Bytes → FilePollOutcome
pack_read hash_bytes name none = skipped
pack_read hash_bytes name (some content) =
    pack_content hash_bytes name content (pack_first_chunk name content)

abbrev pub pack_checked : (Bytes → ℕ) → LocalFile → Bytes → Result ℕ (Unit {0}) → FilePollOutcome
pack_checked hash_bytes f name (ok _) = pack_read hash_bytes name f.content
pack_checked hash_bytes f name (err size_bytes) = oversize (hash_bytes f.path) size_bytes

abbrev pub pack_sized : (Bytes → ℕ) → LocalFile → Bytes → Option ℕ → ℕ → FilePollOutcome
pack_sized hash_bytes f name none limit = skipped
pack_sized hash_bytes f name (some size) limit =
    pack_checked hash_bytes f name (check_file_size size limit)

abbrev pub pack_named : (Bytes → ℕ) → LocalFile → Option Bytes → ℕ → FilePollOutcome
pack_named hash_bytes f none limit = skipped
pack_named hash_bytes f (some name) limit =
    if length name == 0 then skipped else pack_sized hash_bytes f name f.size limit

-- `usize` has 64 bits.
unfoldable pub pack_file_or_warn : (Bytes → ℕ) → LocalFile → ℕ → FilePollOutcome
pack_file_or_warn hash_bytes f limit = pack_named hash_bytes f f.name limit

-- The bytes in the chunks of the messages.
unfoldable pub chunk_len : Message → ℕ
chunk_len (Message.clip_chunk index bytes) = length bytes
chunk_len _ = 0

abbrev pub data_len : List Message → ℕ
data_len [] = 0
data_len (m ∷ rest) = chunk_len m + data_len rest

abbrev pub Polled : Type 0
Polled = ClipboardSync × List Message

unfoldable pub drain_outbox : ClipboardSync → Polled
drain_outbox s =
    let drained = take max_messages_per_poll s.pending_outbox in
    (
      record s {
        pending_outbox = drop max_messages_per_poll s.pending_outbox;
        outgoing_progress = (s.outgoing_progress + data_len drained) % 18446744073709551616;
      },
      drained,
    )

-- The end of each path of `poll` that sends.
unfoldable pub start_transfer : ClipboardSync → ℕ → Bytes → Polled
unfolding drain_outbox
start_transfer s format payload = drain_outbox (record s {
  outgoing_total = length payload;
  outgoing_progress = 0;
  pending_outbox = s.pending_outbox ++ build_offer_and_chunks format payload;
})

abbrev pub send_file : ClipboardSync → FilePollOutcome → Polled
send_file s skipped = (s, [])
send_file s (ready name hash packed) =
    if matches_file_hash s.last hash then (s, []) else start_transfer s format_file packed
send_file s (oversize path_hash size_bytes) =
    if matches_file_hash s.last path_hash then (s, []) else (
      record s {
        pending_warning = some (format_oversize_file_toast size_bytes max_file_bytes);
        last = oversize_file path_hash;
      },
      [],
    )

abbrev pub poll_dropped : Local → ClipboardSync → Option LocalFile → Polled
poll_dropped l s none = (s, [])
poll_dropped l s (some f) = send_file s (pack_file_or_warn l.hash_bytes f max_file_bytes)

unfoldable pub poll_file : Local → ClipboardSync → Polled
poll_file l s =
    if l.clipboard_seq == s.last_clipboard_seq
    then (s, [])
    else poll_dropped l (record s { last_clipboard_seq = l.clipboard_seq }) l.poll_cf_hdrop

abbrev pub send_image : Local → ClipboardSync → ℕ → Bytes → Result ℕ (Unit {0}) → Polled
send_image l s hash png (ok _) =
    start_transfer (record s { last = image hash }) format_png_image png
send_image l s hash png (err png_len) = poll_file l (record s {
  pending_warning = some (image_too_large (png_len / 1024) (max_image_bytes / 1024));
  last = oversize_image hash;
})

abbrev pub send_encoded : Local → ClipboardSync → ℕ → Option Bytes → Polled
send_encoded l s hash none = poll_file l s
send_encoded l s hash (some png) =
    send_image l s hash png (check_image_size (length png) max_image_bytes)

abbrev pub probe_image : Local → ClipboardSync → Option Image → Polled
probe_image l s none = poll_file l s
probe_image l s (some img) =
    if matches_image_hash s.last (l.hash_bytes img.bytes)
    then poll_file l s
    else send_encoded l s (l.hash_bytes img.bytes) (l.encode_rgba_to_png img)

unfoldable pub poll_image : Local → ClipboardSync → Polled
poll_image l s = probe_image l s l.get_image

abbrev pub send_text : ClipboardSync → ℕ → Bytes → Polled
send_text s hash bytes =
    if matches_text_hash s.last hash
    then (s, [])
    else if ltb max_clipboard_bytes (length bytes)
    then (record s { last = text hash }, [])
    else start_transfer (record s { last = text hash }) format_text_utf8 bytes

abbrev pub probe_text : Local → ClipboardSync → Option Bytes → Polled
probe_text l s none = poll_image l s
probe_text l s (some t) = if length t == 0 then poll_image l s else send_text s (l.hash_bytes t) t

unfoldable pub poll : Local → ClipboardSync → ℕ → Polled
unfolding drain_outbox
poll l s now =
    let probed = probe_text l (record s { last_poll = now }) l.get_text in
    if not (is_empty s.pending_outbox)
    then drain_outbox s
    else if ltb (now - s.last_poll) clip_poll_interval
    then (s, [])
    else if s.has_clip
    then probed
    else (record s { last_poll = now }, [])
