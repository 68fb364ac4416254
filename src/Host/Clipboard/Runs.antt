-- ===== src/Host/Clipboard/Runs.antt =====
-- Everything that can happen to the clipboard of a host, in any order.
use wiredesk.Base.{
  ℕ, refl, Bool, inl, inr, List, [], ◌++◌, none, ◌≡◌, ◌==◌, All, All-append, Bool-cases,
}
use wiredesk.Base.Bytes.{Bytes, AreBytes}
use wiredesk.Base.Result.{ok}
use wiredesk.Protocol.Message.{Message}
use wiredesk.Protocol.Packet.{Packet, from_bytes}
use wiredesk.Host.Clipboard.Wire.{IsClipMessage, from_bytes-IsClipMessage}
use wiredesk.Host.Clipboard.{format_file, LastKind, ClipboardSync, new, take_warning}
use wiredesk.Host.Clipboard.Incoming.{Platform, Effect, reset, on_message}
use wiredesk.Host.Clipboard.Outgoing.{Local, poll}
use wiredesk.Host.Clipboard.Harmless.{IsHarmless}
use wiredesk.Host.Clipboard.Bounds.{IsSync, reset_reassembly-IsSync, on_offer-safe, on_chunk-safe}
use wiredesk.Host.Clipboard.Polling.{outgoing-IsSync, poll-IsSync}

on_message-safe :
    (p : Platform) (s : ClipboardSync) (m : Message)
    → IsSync s
    → IsClipMessage m
    → IsSync (on_message p s m).0 × All (IsHarmless p) (on_message p s m).1.1
unfolding on_message
on_message-safe p s (Message.clip_offer format total_len) w h = on_offer-safe p s format total_len w
on_message-safe p s (Message.clip_chunk index bytes) w h = on_chunk-safe p s index bytes w h.0 h.1
on_message-safe p s (Message.clip_decline format) w h = elim (Bool-cases (format == format_file)) [
  | inl t ↦ rw t (outgoing-IsSync _ _ _ _ _ _ _ w, tt)
  | inr n ↦ rw n (outgoing-IsSync _ _ _ _ _ _ _ w, tt)
]
on_message-safe p s m w h = (w, tt)

reset-safe :
    (p : Platform) (s : ClipboardSync)
    → IsSync s
    → IsSync (reset s).0 × All (IsHarmless p) (reset s).1
unfolding reset
reset-safe p s w = rw w.nothing_in_flight (
  outgoing-IsSync _ _ _ _ _ _ _
      (reset_reassembly-IsSync (record s { in_flight_file_path = none }) refl),
  tt,
)

-- From the start of a host on: messages in packets that are read from any bytes, polls with any clipboard of its own, ends of a
-- session, the switch for files, warnings taken. The effects are all calls made so far.
pub data Reach (p : Platform) : ClipboardSync → List Effect → Type 0 where
  started :
      (has_clip : Bool) (last : LastKind) (now : ℕ) (receive_files : Bool) (seq : ℕ)
      → Reach p (new has_clip last now receive_files seq) []
  received :
      {s : ClipboardSync} {es : List Effect} (checksum : Bytes → ℕ) (raw : Bytes) (packet : Packet)
      → AreBytes raw
      → from_bytes checksum raw ≡ ok packet
      → Reach p s es
      → Reach p (on_message p s packet.message).0 (es ++ (on_message p s packet.message).1.1)
  polled :
      {s : ClipboardSync} {es : List Effect} (l : Local) (now : ℕ)
      → Reach p s es
      → Reach p (poll l s now).0 es
  ended :
      {s : ClipboardSync} {es : List Effect}
      → Reach p s es
      → Reach p (reset s).0 (es ++ (reset s).1)
  switched :
      {s : ClipboardSync} {es : List Effect} (on : Bool)
      → Reach p s es
      → Reach p (record s { receive_files = on }) es
  warned : {s : ClipboardSync} {es : List Effect} → Reach p s es → Reach p (take_warning s).0 es

Reach-safe :
    {p : Platform} {s : ClipboardSync} {es : List Effect}
    → Reach p s es
    → IsSync s × All (IsHarmless p) es
Reach-safe {p} (started has_clip last now receive_files seq) = (
  outgoing-IsSync _ _ _ _ _ _ _
      (reset_reassembly-IsSync (new has_clip last now receive_files seq) refl),
  tt,
)
Reach-safe {p} (received {s} {es} checksum raw packet b h r) =
    let (w, harmless) = Reach-safe r in
    let chunk = from_bytes-IsClipMessage checksum raw packet b h in
    let step = on_message-safe p s packet.message w chunk in
    (step.0, All-append (IsHarmless p) es _ harmless step.1)
Reach-safe (polled {s} l now r) =
    let (w, harmless) = Reach-safe r in (poll-IsSync l s now w, harmless)
Reach-safe {p} (ended {s} {es} r) =
    let (w, harmless) = Reach-safe r in
    let step = reset-safe p s w in (step.0, All-append (IsHarmless p) es _ harmless step.1)
Reach-safe (switched {s} on r) =
    let (w, harmless) = Reach-safe r in
    (
      record {
        entries = w.entries;
        idle = w.idle;
        below = w.below;
        within = w.within;
        known = w.known;
        progress = w.progress;
        total = w.total;
        nothing_in_flight = w.nothing_in_flight;
      },
      harmless,
    )
Reach-safe (warned {s} r) =
    let (w, harmless) = Reach-safe r in (outgoing-IsSync _ _ _ _ _ _ _ w, harmless)

-- Whatever packets the host reads and whatever its own clipboard does, from the start on: an idle
-- reassembly holds nothing; a busy one has a known format, an announced length within that format's
-- cap, and fewer bytes counted than announced; its chunks have indices below 65536, each once and
-- in order, with at most 65533 bytes each; the progress counters are its counts; and no path of a
-- write is left in `in_flight_file_path` behind a call. The bytes of a packet are any bytes that
-- `Packet::from_bytes` accepts.
pub Reach-IsSync : {p : Platform} {s : ClipboardSync} {es : List Effect} → Reach p s es → IsSync s
Reach-IsSync r = (Reach-safe r).0

-- Whatever packets the host reads and whatever its own clipboard does, from the start on, the
-- system is only called to take a valid text of at most 256 KB, an image decoded from at most 20
-- MB, to create the cache directory, and to write, name or remove the path of the cache directory
-- joined with a name that is not empty and has none of / \ < > : " | ? * and no NUL, with at most
-- 20 MB and 4096 bytes of content. So the name is one component; that it is not ".." is not said,
-- as it can be. The bytes of a packet are any bytes that `Packet::from_bytes` accepts.
pub Reach-IsHarmless :
    {p : Platform} {s : ClipboardSync} {es : List Effect} → Reach p s es → All (IsHarmless p) es
Reach-IsHarmless r = (Reach-safe r).1
