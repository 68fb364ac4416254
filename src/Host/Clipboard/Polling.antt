-- ===== src/Host/Clipboard/Polling.antt =====
-- A poll leaves the reassembly alone.
use wiredesk.Base.{
  ℕ, ◌-◌, Bool, true, false, inl, inr, List, [], Option, none, some, ltb, ◌==◌, if◌then◌else◌,
  length, Bool-cases,
}
use wiredesk.Base.Bytes.{Bytes}
use wiredesk.Base.Result.{Result, ok, err}
use wiredesk.Protocol.Message.{Message}
use wiredesk.Host.Clipboard.{
  max_clipboard_bytes, max_file_bytes, max_image_bytes, format_file, LastKind, matches_text_hash,
  matches_image_hash, matches_file_hash, Warning, ClipboardSync, is_empty, check_image_size,
}
use wiredesk.Host.Clipboard.Incoming.{Image}
use wiredesk.Host.Clipboard.Outgoing.{
  LocalFile, Local, FilePollOutcome, ready, oversize, skipped, pack_file_or_warn, drain_outbox,
  start_transfer, send_file, poll_dropped, poll_file, send_image, send_encoded, probe_image,
  poll_image, send_text, probe_text, poll,
}
use wiredesk.Host.Clipboard.Bounds.{IsSync}

-- What a host sends leaves the reassembly alone.
pub outgoing-IsSync :
    {s : ClipboardSync} (last : LastKind) (at progress total seq : ℕ) (outbox : List Message)
    (warning : Option Warning)
    → IsSync s
    → IsSync (record s {
      last = last;
      last_poll = at;
      outgoing_progress = progress;
      outgoing_total = total;
      last_clipboard_seq = seq;
      pending_outbox = outbox;
      pending_warning = warning;
    })
outgoing-IsSync last at progress total seq outbox warning w = record {
  entries = w.entries;
  idle = w.idle;
  below = w.below;
  within = w.within;
  known = w.known;
  progress = w.progress;
  total = w.total;
  nothing_in_flight = w.nothing_in_flight;
}

drain_outbox-IsSync : (s : ClipboardSync) → IsSync s → IsSync (drain_outbox s).0
unfolding drain_outbox
drain_outbox-IsSync s w = outgoing-IsSync _ _ _ _ _ _ _ w

start_transfer-IsSync :
    (s : ClipboardSync) (format : ℕ) (payload : Bytes)
    → IsSync s
    → IsSync (start_transfer s format payload).0
unfolding start_transfer
start_transfer-IsSync s format payload w = drain_outbox-IsSync _ (outgoing-IsSync _ _ _ _ _ _ _ w)

send_file-IsSync : (s : ClipboardSync) (o : FilePollOutcome) → IsSync s → IsSync (send_file s o).0
send_file-IsSync s skipped w = w
send_file-IsSync s (ready name hash packed) w = elim (Bool-cases (matches_file_hash s.last hash)) [
  | inl t ↦ rw t w
  | inr n ↦ rw n (start_transfer-IsSync s format_file packed w)
]
send_file-IsSync s (oversize hash size) w = elim (Bool-cases (matches_file_hash s.last hash)) [
  | inl t ↦ rw t w
  | inr n ↦ rw n (outgoing-IsSync _ _ _ _ _ _ _ w)
]

module _ (l : Local) where
  poll_dropped-IsSync :
      (s : ClipboardSync) (o : Option LocalFile) → IsSync s → IsSync (poll_dropped l s o).0
  poll_dropped-IsSync s none w = w
  poll_dropped-IsSync s (some f) w =
      send_file-IsSync s (pack_file_or_warn l.hash_bytes f max_file_bytes) w

  poll_file-IsSync : (s : ClipboardSync) → IsSync s → IsSync (poll_file l s).0
  unfolding poll_file
  poll_file-IsSync s w = elim (Bool-cases (l.clipboard_seq == s.last_clipboard_seq)) [
    | inl t ↦ rw t w
    | inr n ↦ rw n (poll_dropped-IsSync _ l.poll_cf_hdrop (outgoing-IsSync _ _ _ _ _ _ _ w))
  ]

  send_image-IsSync :
      (s : ClipboardSync) (hash : ℕ) (png : Bytes) (r : Result ℕ (Unit {0}))
      → IsSync s
      → IsSync (send_image l s hash png r).0
  send_image-IsSync s hash png (ok _) w =
      start_transfer-IsSync _ _ png (outgoing-IsSync _ _ _ _ _ _ _ w)
  send_image-IsSync s hash png (err size) w = poll_file-IsSync _ (outgoing-IsSync _ _ _ _ _ _ _ w)

  probe_image-IsSync :
      (s : ClipboardSync) (o : Option Image) → IsSync s → IsSync (probe_image l s o).0
  probe_image-IsSync s none w = poll_file-IsSync s w
  probe_image-IsSync s (some img) w =
      elim (Bool-cases (matches_image_hash s.last (l.hash_bytes img.bytes))) [
        | inl t ↦ rw t (poll_file-IsSync s w)
        | inr n ↦ rw n (encoded (l.encode_rgba_to_png img))
      ]
    where
      encoded : (o : Option Bytes) → IsSync (send_encoded l s (l.hash_bytes img.bytes) o).0
      encoded none = poll_file-IsSync s w
      encoded (some png) =
          send_image-IsSync s _ png (check_image_size (length png) max_image_bytes) w

  probe_text-IsSync :
      (s : ClipboardSync) (o : Option Bytes) → IsSync s → IsSync (probe_text l s o).0
  unfolding poll_image
  probe_text-IsSync s none w = probe_image-IsSync s l.get_image w
  probe_text-IsSync s (some t) w = elim (Bool-cases (length t == 0)) [
    | inl e ↦ rw e (probe_image-IsSync s l.get_image w)
    | inr n ↦ rw n (sent (l.hash_bytes t))
  ]
    where
      sent : (hash : ℕ) → IsSync (send_text s hash t).0
      sent hash = elim (Bool-cases (matches_text_hash s.last hash)) [
        | inl e ↦ rw e w
        | inr n ↦ elim (Bool-cases (ltb max_clipboard_bytes (length t))) [
          | inl e ↦ rw (n, e) (outgoing-IsSync _ _ _ _ _ _ _ w)
          | inr m ↦ rw (n, m) (start_transfer-IsSync _ _ t (outgoing-IsSync _ _ _ _ _ _ _ w))
        ]
      ]

  pub poll-IsSync : (s : ClipboardSync) (now : ℕ) → IsSync s → IsSync (poll l s now).0
  unfolding poll
  poll-IsSync s now w = elim (Bool-cases (is_empty s.pending_outbox)) [
    | inr n ↦ rw n (drain_outbox-IsSync s w)
    | inl e ↦ elim (Bool-cases (ltb (now - s.last_poll) 500)) [
      | inl t ↦ rw (e, t) w
      | inr n ↦ rw (e, n) (looked s.has_clip)
    ]
  ]
    where
      at : ClipboardSync
      at = record s { last_poll = now }

      looked : (clip : Bool) → IsSync (if clip then probe_text l at l.get_text else (at, [])).0
      looked true = probe_text-IsSync at l.get_text (outgoing-IsSync _ _ _ _ _ _ _ w)
      looked false = outgoing-IsSync _ _ _ _ _ _ _ w
