-- ===== src/Host/Clipboard.antt =====
-- apps/wiredesk-host/src/clipboard.rs: the clipboard's state, its bounds and the chunks of a
-- transfer. `BTreeMap<u16, Vec<u8>>` is the list of its entries in the order of the keys, a `String`
-- the list of its UTF-8 bytes. `last_committed` and `cache_dir_override` serve tests only.
pub mod Incoming
pub mod Held
pub mod Delivered
pub mod Transfer
pub mod Delivery
pub mod Outgoing
pub mod Queue
pub mod Harmless
pub mod Bounds
pub mod Wire
pub mod Polling
pub mod Runs
pub mod Echo
mod Tests
use wiredesk.Base.{
  ℕ, zero, suc, ◌+◌, ◌*◌, ◌%◌, ◌/◌, Bool, true, false, ◌||◌, List, [], ◌∷◌, ◌++◌, Option, none,
  some, not, ltb, ◌==◌, if◌then◌else◌, length,
}
use wiredesk.Base.Bytes.{Bytes}
use wiredesk.Base.Chunks.{chunks}
use wiredesk.Base.Result.{Result, ok, err}
use wiredesk.Protocol.ClipFile.Sanitize.{Chars}
use wiredesk.Protocol.Message.{Message}

-- `MAX_PAYLOAD - 2`.
abbrev pub chunk_size : ℕ
chunk_size = 4094

abbrev pub max_clipboard_bytes : ℕ
max_clipboard_bytes = 262144

abbrev pub max_messages_per_poll : ℕ
max_messages_per_poll = 8

abbrev pub max_image_bytes : ℕ
max_image_bytes = 20971520

abbrev pub max_file_bytes : ℕ
max_file_bytes = 20971520

-- `MAX_FILE_BYTES + MAX_FILENAME_LEN + 2`.
abbrev pub max_file_payload_bytes : ℕ
max_file_payload_bytes = 20975618

abbrev pub format_text_utf8 : ℕ
format_text_utf8 = 0

abbrev pub format_png_image : ℕ
format_png_image = 1

abbrev pub format_file : ℕ
format_file = 2

pub data LastKind : Type 0 where
  nothing : LastKind
  text image oversize_image file oversize_file : (hash : ℕ) → LastKind

abbrev pub matches_image_hash : LastKind → ℕ → Bool
matches_image_hash (image h) hash = h == hash
matches_image_hash (oversize_image h) hash = h == hash
matches_image_hash _ hash = false

abbrev pub matches_file_hash : LastKind → ℕ → Bool
matches_file_hash (file h) hash = h == hash
matches_file_hash (oversize_file h) hash = h == hash
matches_file_hash _ hash = false

abbrev pub matches_text_hash : LastKind → ℕ → Bool
matches_text_hash (text h) hash = h == hash
matches_text_hash _ hash = false

-- A path in the cache directory.
pub record CachePath : Type 0 where
  pub dir : Chars
  pub name : Chars

-- The text of a warning, named by its format string.
pub data Warning : Type 0 where
  image_too_large file_too_large : (kb limit_kb : ℕ) → Warning
  declined : (format : ℕ) → Warning

-- `Err` carries the length that is too large.
abbrev pub check_image_size : ℕ → ℕ → Result ℕ (Unit {0})
check_image_size png_len limit = if ltb limit png_len then err png_len else ok tt

abbrev pub check_file_size : ℕ → ℕ → Result ℕ (Unit {0})
check_file_size size_bytes limit = if ltb limit size_bytes then err size_bytes else ok tt

abbrev pub format_oversize_file_toast : ℕ → ℕ → Warning
format_oversize_file_toast size_bytes limit = file_too_large (size_bytes / 1024) (limit / 1024)

-- The chunks' messages, `idx as u16` their index.
abbrev pub numbered : ℕ → List Bytes → List Message
numbered idx [] = []
numbered idx (chunk ∷ rest) = Message.clip_chunk (idx % 65536) chunk ∷ numbered (suc idx) rest

unfoldable pub build_offer_and_chunks : ℕ → Bytes → List Message
build_offer_and_chunks format payload =
    Message.clip_offer format (length payload % 4294967296)
    ∷ numbered 0 (chunks (length payload) chunk_size payload)

abbrev pub Received : Type 0
Received = List (ℕ × Bytes)

-- `BTreeMap::insert`.
abbrev pub insert : ℕ → Bytes → Received → Received
insert index bytes [] = (index, bytes) ∷ []
insert index bytes ((k, held) ∷ rest) =
    let more = insert index bytes rest in
    if index == k
    then (k, bytes) ∷ rest
    else if ltb index k
    then (index, bytes) ∷ (k, held) ∷ rest
    else (k, held) ∷ more

abbrev pub contains_key : ℕ → Received → Bool
contains_key index [] = false
contains_key index ((k, held) ∷ rest) = (index == k) || contains_key index rest

pub record ClipboardSync : Type 0 where
  pub has_clip : Bool
  pub last : LastKind
  pub last_poll : ℕ
  pub expected_len : ℕ
  pub expected_format : ℕ
  pub received_total : ℕ
  pub received : Received
  pub incoming_progress : ℕ
  pub incoming_total : ℕ
  pub outgoing_progress : ℕ
  pub outgoing_total : ℕ
  pub pending_outbox : List Message
  pub pending_warning : Option Warning
  pub receive_files : Bool
  pub in_flight_file_path : Option CachePath
  pub last_clipboard_seq : ℕ

-- `with_counters_and_toggles`, from what `stamp_initial` found and the counters at zero.
abbrev pub new : Bool → LastKind → ℕ → Bool → ℕ → ClipboardSync
new has_clip last now receive_files seq = record {
  has_clip = has_clip;
  last = last;
  last_poll = now;
  expected_len = 0;
  expected_format = 0;
  received_total = 0;
  received = [];
  incoming_progress = 0;
  incoming_total = 0;
  outgoing_progress = 0;
  outgoing_total = 0;
  pending_outbox = [];
  pending_warning = none;
  receive_files = receive_files;
  in_flight_file_path = none;
  last_clipboard_seq = seq;
}

abbrev pub take_warning : ClipboardSync → ClipboardSync × Option Warning
take_warning s = (record s { pending_warning = none }, s.pending_warning)

abbrev pub push_warning : ClipboardSync → Warning → ClipboardSync
push_warning s msg = record s { pending_warning = some msg }

abbrev pub is_empty : List Message → Bool
is_empty [] = true
is_empty (m ∷ rest) = false

abbrev pub transfer_in_flight : ClipboardSync → Bool
transfer_in_flight s = ltb 0 s.expected_len || not (is_empty s.pending_outbox)

abbrev pub cancel_outgoing : ClipboardSync → ClipboardSync × ℕ
cancel_outgoing s = (
  record s { pending_outbox = []; outgoing_progress = 0; outgoing_total = 0 },
  length s.pending_outbox,
)

abbrev pub reset_reassembly : ClipboardSync → ClipboardSync
reset_reassembly s = record s {
  expected_len = 0;
  expected_format = 0;
  received = [];
  received_total = 0;
  incoming_progress = 0;
  incoming_total = 0;
}
