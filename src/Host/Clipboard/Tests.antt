-- ===== src/Host/Clipboard/Tests.antt =====
-- Runs of the clipboard.
use wiredesk.Base.{
  ◌≡◌, ◌≤◌, refl, true, false, List, [], ◌∷◌, ◌++◌, none, some, length, take, replicate, All, arith,
  ◌==◌,
}
use wiredesk.Base.Bytes.{Bytes}
use wiredesk.Base.Chunks.{joined}
use wiredesk.Base.Utf8.{from_utf8}
use wiredesk.Base.Result.{ok}
use wiredesk.Protocol.Message.{Message, MessageType, try_from}
use wiredesk.Protocol.Message.Deserialize.{deserialize}
use wiredesk.Protocol.Packet.{Packet, from_bytes}
use wiredesk.Host.Clipboard.{LastKind, ClipboardSync, new, build_offer_and_chunks, reset_reassembly}
use wiredesk.Host.Clipboard.Incoming.{
  Platform, set_text, on_message, on_offer, on_chunk, commit, deliver, commit_text,
}
use wiredesk.Host.Clipboard.Transfer.{run, chunks_at}
use wiredesk.Host.Clipboard.Delivery.{run-build_offer_and_chunks}
use wiredesk.Host.Clipboard.Outgoing.{Local}
use wiredesk.Host.Clipboard.Queue.{polls, sent_text, polls-build_offer_and_chunks}
use wiredesk.Host.Clipboard.Harmless.{IsHarmless}
use wiredesk.Host.Clipboard.Bounds.{IsSync}
use wiredesk.Host.Clipboard.Runs.{started, received, Reach-IsSync, Reach-IsHarmless}
use wiredesk.Host.Clipboard.Echo.{IsQuiet, polls-deliver}

abbrev platform : Platform
platform = record {
  hash_bytes = length;
  decode_png_to_rgba = λ b. none;
  sets_text = λ t. true;
  sets_image = λ i. true;
  resolve_cache_dir = 67 ∷ [];
  creates_dir = λ d. true;
  writes_file = λ f c. true;
  sets_cf_hdrop = λ f. true;
  chars = λ t. t;
  is_whitespace = λ c. c == 32;
}

abbrev text_local : Bytes → Local
text_local t = record {
  hash_bytes = length;
  encode_rgba_to_png = λ i. none;
  get_text = some t;
  get_image = none;
  clipboard_seq = 0;
  poll_cf_hdrop = none;
}

abbrev idle : ClipboardSync
idle = new true LastKind.nothing 0 true 0

abbrev hi : Bytes
hi = 104 ∷ 105 ∷ []

-- Five thousand letters, two chunks.
abbrev long : Bytes
long = replicate 5000 97

-- The second chunk comes first, and twice.
abbrev mixed : List Message
mixed =
    take 1 (build_offer_and_chunks 0 long)
    ++ chunks_at (build_offer_and_chunks 0 long) (1 ∷ 1 ∷ 0 ∷ [])

hi_delivered :
    run platform idle (build_offer_and_chunks 0 hi)
    ≡ (record idle { last = LastKind.text 2 }, set_text hi ∷ [])
unfolding on_message on_offer on_chunk commit deliver commit_text build_offer_and_chunks from_utf8
hi_delivered = refl

file_declined :
    on_offer (record idle { receive_files = false }) 2 10
    ≡ (record idle { receive_files = false }, (some (Message.clip_decline 2), []))
unfolding on_offer
file_declined = refl

run-build_offer_and_chunks_example :
    run platform idle mixed ≡ deliver platform 0 (reset_reassembly idle) long
unfolding build_offer_and_chunks
run-build_offer_and_chunks_example =
    run-build_offer_and_chunks platform idle 0 long (1 ∷ 1 ∷ []) 0 (omega arith) refl refl
      (omega arith) (omega arith, (omega arith, tt)) (omega arith) refl refl

polls-build_offer_and_chunks_example :
    ((polls idle ((text_local hi, 500) ∷ [])).0 ≡ sent_text idle (text_local hi) hi 500)
    × (joined (polls idle ((text_local hi, 500) ∷ [])).1 ≡ build_offer_and_chunks 0 hi)
    × All (λ batch. length batch ≤ 8) (polls idle ((text_local hi, 500) ∷ [])).1
unfolding build_offer_and_chunks
polls-build_offer_and_chunks_example =
    polls-build_offer_and_chunks idle (text_local hi) hi 500 [] refl (omega arith) refl refl
      (omega arith) (omega arith) refl (omega arith) (omega arith)

polls-deliver_example :
    All IsQuiet
      (polls (deliver platform 0 idle hi).0 ((text_local hi, 900) ∷ (text_local hi, 1500) ∷ [])).1
unfolding from_utf8
polls-deliver_example =
    polls-deliver platform idle hi ((text_local hi, 900) ∷ (text_local hi, 1500) ∷ []) refl
      (omega arith) refl refl ((refl, refl), ((refl, refl), tt))

-- The packets of an offer of four bytes and of the second chunk of it, under a checksum that is
-- always 0.
abbrev offer_bytes : Bytes
offer_bytes = 0x57 ∷ 0x44 ∷ 0x20 ∷ 0 ∷ 0 ∷ 0 ∷ 5 ∷ 0 ∷ 0 ∷ 4 ∷ 0 ∷ 0 ∷ 0 ∷ 0 ∷ 0 ∷ []

abbrev chunk_bytes : Bytes
chunk_bytes = 0x57 ∷ 0x44 ∷ 0x21 ∷ 0 ∷ 0 ∷ 0 ∷ 4 ∷ 0 ∷ 1 ∷ 0 ∷ 104 ∷ 105 ∷ 0 ∷ 0 ∷ []

abbrev packet_of : MessageType → Message → Packet
packet_of tag m = record { tag = tag; flags = 0; seq = 0; message = m }

offer_read :
    from_bytes (λ b. 0) offer_bytes ≡ ok (packet_of MessageType.clip_offer (Message.clip_offer 0 4))
unfolding from_bytes deserialize try_from
offer_read = refl

chunk_read :
    from_bytes (λ b. 0) chunk_bytes
    ≡ ok (packet_of MessageType.clip_chunk (Message.clip_chunk 1 hi))
unfolding from_bytes deserialize try_from
chunk_read = refl

abbrev offered : ClipboardSync
offered = (on_message platform idle (Message.clip_offer 0 4)).0

Reach-IsSync_example : IsSync (on_message platform offered (Message.clip_chunk 1 hi)).0
Reach-IsSync_example = Reach-IsSync {p = platform} (
    received (λ b. 0) chunk_bytes _ (omega arith) chunk_read
      (received (λ b. 0) offer_bytes _ (omega arith) offer_read
        (started true LastKind.nothing 0 true 0)))

Reach-IsHarmless_example : All (IsHarmless platform) (
    (on_message platform idle (Message.clip_offer 0 4)).1.1
    ++ (on_message platform offered (Message.clip_chunk 1 hi)).1.1)
Reach-IsHarmless_example = Reach-IsHarmless {p = platform} (
    received (λ b. 0) chunk_bytes _ (omega arith) chunk_read
      (received (λ b. 0) offer_bytes _ (omega arith) offer_read
        (started true LastKind.nothing 0 true 0)))
