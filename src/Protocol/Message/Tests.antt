-- ===== src/Protocol/Message/Tests.antt =====
-- Runs of the message codec, and the claims at concrete messages.
use wiredesk.Base.{◌≡◌, refl, [], ◌∷◌, none, replicate, arith}
use wiredesk.Base.Bytes.{Bytes}
use wiredesk.Base.Int.{negsuc}
use wiredesk.Base.Result.{ok, err}
use wiredesk.Base.Utf8.{from_utf8}
use wiredesk.Core.Error.{
  WireDeskError, unknown_message_type, invalid_utf8, payload_too_short, invalid_browser_frame,
}
use wiredesk.Protocol.Message.{Message, MessageType, msg_type, try_from}
use wiredesk.Protocol.Message.Serialize.{serialize, write_string}
use wiredesk.Protocol.Message.Deserialize.{deserialize}
use wiredesk.Protocol.Message.RoundTrip.{deserialize-serialize, hello_cut}
use wiredesk.Protocol.Message.Sound.{Answers, deserialize_sound}

abbrev mac : Bytes
mac = b'm' ∷ b'a' ∷ b'c' ∷ []

abbrev scroll : Message
scroll = Message.mouse_scroll (negsuc 119) (negsuc 0)

serialize-scroll : serialize scroll ≡ 136 ∷ 255 ∷ 255 ∷ 255 ∷ []
unfolding serialize
serialize-scroll = refl

serialize-hello : serialize (Message.hello 1 mac) ≡ 1 ∷ 3 ∷ mac
unfolding serialize write_string
serialize-hello = refl

deserialize-short :
    deserialize MessageType.mouse_move (1 ∷ 2 ∷ [])
    ≡ err (WireDeskError.protocol (payload_too_short 2 4))
unfolding deserialize
deserialize-short = refl

deserialize-browser_bad :
    deserialize MessageType.browser (replicate 13 0)
    ≡ err (WireDeskError.protocol invalid_browser_frame)
unfolding deserialize
deserialize-browser_bad = refl

try_from-unknown : try_from 0x99 ≡ err (WireDeskError.protocol (unknown_message_type 0x99))
unfolding try_from
try_from-unknown = refl

deserialize-serialize_example :
    deserialize MessageType.hello (serialize (Message.hello 1 mac)) ≡ ok (Message.hello 1 mac)
unfolding msg_type from_utf8
deserialize-serialize_example =
    deserialize-serialize (Message.hello 1 mac) (omega arith, ((omega arith), refl)) (omega arith)

deserialize_sound_example : Answers MessageType.clip_ack (Message.clip_ack 7)
unfolding deserialize
deserialize_sound_example = deserialize_sound MessageType.clip_ack (7 ∷ 0 ∷ []) (omega arith) refl

-- 31 ASCII letters, and a two-byte letter across the limit of the field.
abbrev cyrillic : Bytes
cyrillic =
    97 ∷ 97 ∷ 97 ∷ 97 ∷ 97 ∷ 97 ∷ 97 ∷ 97 ∷ 97 ∷ 97 ∷ 97 ∷ 97 ∷ 97 ∷ 97 ∷ 97 ∷ 97 ∷ 97 ∷ 97 ∷ 97
    ∷ 97 ∷ 97 ∷ 97 ∷ 97 ∷ 97 ∷ 97 ∷ 97 ∷ 97 ∷ 97 ∷ 97 ∷ 97 ∷ 97 ∷ 0xd0 ∷ 0x9f ∷ []

hello_cut_example :
    deserialize MessageType.hello (serialize (Message.hello 1 cyrillic))
    ≡ err (WireDeskError.protocol (invalid_utf8 (record { valid_up_to = 31; error_len = none })))
unfolding from_utf8
hello_cut_example = hello_cut 1 cyrillic refl
