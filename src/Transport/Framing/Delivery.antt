-- ===== src/Transport/Framing/Delivery.antt =====
-- What goes in at one end of a byte stream comes out at the other.
use wiredesk.Base.{
  ℕ, suc, zero, ◌≤◌, ◌<◌, ◌≡◌, ◌≢◌, refl, sym, ap, ◌∙◌, subst, List, [], ◌∷◌, ◌++◌, append-nil,
  append_assoc, Option, some, map, foldl, length, All, arith,
}
use wiredesk.Base.Bytes.{Bytes}
use wiredesk.Base.Result.{ok, >>=-eq-ok}
use wiredesk.Core.Error.{Fallible}
use wiredesk.Protocol.Cobs
use wiredesk.Protocol.Cobs.RoundTrip.{decode-encode}
use wiredesk.Protocol.Cobs.Size.{encode_frame_shape}
use wiredesk.Protocol.Message.Serialize.{serialize}
use wiredesk.Protocol.Message.Ranges.{IsMessage, Carries, IsU16}
use wiredesk.Protocol.Packet
use wiredesk.Protocol.Packet.{Packet, to_bytes, from_bytes}
use wiredesk.Protocol.Packet.RoundTrip.{from_bytes-to_bytes, length-to_bytes}
use wiredesk.Transport.Framing.{
  FrameReader, new, feed_byte, end_frame, feed, encode_frame, decode_frame, next_packet,
}
use wiredesk.Transport.Framing.Invariant.{IsReader, new-IsReader, feed-IsReader}
use wiredesk.Transport.Framing.Resync.{IsIdle, feed-append, feed_frame}

-- A packet of `Packet::new` that the wire format can carry.
pub record IsSendable (p : Packet) : Type 0 where
  pub made : p ≡ Packet.new p.message p.seq
  pub ranges : IsMessage p.message
  pub carries : Carries p.message
  pub numbered : IsU16 p.seq
  pub size : length (serialize p.message) ≤ 4096

-- Blocks read from the stream, one `feed` each.
abbrev pub feed_all : FrameReader → List Bytes → FrameReader
feed_all = foldl feed

abbrev pub joined : List Bytes → Bytes
joined [] = []
joined (b ∷ bs) = b ++ joined bs

feed_all-joined :
    (blocks : List Bytes) (r : FrameReader) → feed_all r blocks ≡ feed r (joined blocks)
feed_all-joined [] r = refl
feed_all-joined (b ∷ bs) r = feed_all-joined bs (feed r b) ∙ sym (feed-append b (joined bs) r)

feed_byte-idle : (r : FrameReader) → IsIdle r → feed_byte r 0 ≡ r
unfolding feed_byte
feed_byte-idle r i = simp i.reading (idle r.partial i.empty)
  where
    idle : (bs : Bytes) → bs ≡ [] → end_frame r bs ≡ r
    idle [] e = unfold end_frame in refl
    idle (b ∷ bs) e = cc

module _ (checksum : Bytes → ℕ) where
  -- The bytes that a sender puts on the stream for packets in turn.
  pub data Sent : List Packet → Bytes → Type 0 where
    nothing : Sent [] []
    packet :
        {p : Packet} {ps : List Packet} {frame wire : Bytes}
        → encode_frame checksum p ≡ ok frame
        → Sent ps wire
        → Sent (p ∷ ps) (frame ++ wire)

  -- The answers of `n` calls of `next_packet`.
  pub drain : ℕ → FrameReader → List (Fallible (Option Packet))
  drain zero r = []
  drain (suc n) r = (next_packet checksum r).1 ∷ drain n (next_packet checksum r).0

module _ (checksum : Bytes → ℕ) (is_u16 : (bytes : Bytes) → checksum bytes < 65536) where
  abbrev Decode : List Bytes → List Packet → Type 0
  Decode [] [] = Unit
  Decode (f ∷ fs) (p ∷ ps) = (decode_frame checksum f ≡ ok (some p)) × Decode fs ps
  Decode _ _ = ⊥

  -- A frame of `encode_frame`: its parts, and what is read from them.
  record IsEncoding (p : Packet) (frame : Bytes) : Type 0 where
    body : Bytes
    splits : frame ≡ 0 ∷ (body ++ 0 ∷ [])
    nonzero : All (λ b. b ≢ 0) body
    nonempty : 0 < length body
    bounded : length body ≤ 8192
    decodes : decode_frame checksum (body ++ 0 ∷ []) ≡ ok (some p)

  pub from_bytes-sent :
      (p : Packet) (raw : Bytes)
      → IsSendable p
      → to_bytes checksum p ≡ ok raw
      → from_bytes checksum raw ≡ ok p
  from_bytes-sent p raw s written =
      let (bytes, same, back) =
        from_bytes-to_bytes checksum is_u16 p.message p.seq s.ranges s.carries s.numbered s.size in
      let read : from_bytes checksum bytes ≡ ok p =
        ap (from_bytes checksum) (sym (append-nil bytes)) ∙ back [] ∙ ap ok (sym s.made) in
      let agreed : ◌≡◌ {A = Fallible Bytes} (ok raw) (ok bytes) =
        sym written ∙ ap (to_bytes checksum) s.made ∙ same in
      ground arith

  decode_frame-sent :
      (p : Packet) (raw : Bytes)
      → IsSendable p
      → to_bytes checksum p ≡ ok raw
      → decode_frame checksum (Cobs.encode raw) ≡ ok (some p)
  unfolding decode_frame
  decode_frame-sent p raw s written = rw (decode-encode raw, from_bytes-sent p raw s written)

  encode_frame-IsEncoding :
      (p : Packet) (frame : Bytes)
      → IsSendable p
      → encode_frame checksum p ≡ ok frame
      → IsEncoding p frame
  unfolding encode_frame
  encode_frame-IsEncoding p frame s e =
      let (raw, written, out) = >>=-eq-ok (to_bytes checksum p) (λ x. ok (0 ∷ Cobs.encode x)) e in
      let (body, shape, nonzero, nonempty, bounded) = encode_frame_shape raw in
      let same : 0 ∷ Cobs.encode raw ≡ frame = cc out in
      record {
        body = body;
        splits = sym same ∙ ap (λ (x : Bytes). 0 ∷ x) shape;
        nonzero = nonzero;
        nonempty = nonempty;
        bounded = omega (arith, length-to_bytes checksum is_u16 p written);
        decodes = rw (← shape) (decode_frame-sent p raw s written);
      }

  -- What the reader holds once the packets' bytes are in.
  record Holds (r : FrameReader) (wire : Bytes) (ps : List Packet) : Type 0 where
    frames : List Bytes
    holds : feed r wire ≡ record r { ready = r.ready ++ frames }
    decode : Decode frames ps

  feed-Holds :
      {ps : List Packet} {wire : Bytes} (r : FrameReader)
      → IsReader r
      → IsIdle r
      → All IsSendable ps
      → Sent checksum ps wire
      → Holds r wire ps
  feed-Holds r v i s nothing = record {
    frames = [];
    holds = λ k. record r { ready = sym (append-nil r.ready) k };
    decode = tt;
  }
  feed-Holds r v i s (packet {p} {ps} {frame} {wire} e sent) =
      let enc = encode_frame-IsEncoding p frame s.0 e in
      let one = feed_frame r enc.body v enc.nonzero enc.nonempty enc.bounded in
      let fed : feed r frame ≡ record r { ready = r.ready ++ (enc.body ++ 0 ∷ []) ∷ [] } =
        ap (feed r) enc.splits
        ∙ one.0
        ∙ ap (λ (q : FrameReader). record q { ready = q.ready ++ (enc.body ++ 0 ∷ []) ∷ [] })
            (feed_byte-idle r i) in
      let rest =
        feed-Holds (record r { ready = r.ready ++ (enc.body ++ 0 ∷ []) ∷ [] })
          (subst IsReader fed (feed-IsReader frame r v))
          (record { empty = i.empty; reading = i.reading }) s.1 sent in
      record {
        frames = (enc.body ++ 0 ∷ []) ∷ rest.frames;
        holds =
            feed-append frame wire r
            ∙ ap (λ (q : FrameReader). feed q wire) fed
            ∙ rest.holds
            ∙ (λ k. record r {
              ready = append_assoc r.ready ((enc.body ++ 0 ∷ []) ∷ []) rest.frames k;
            });
        decode = (enc.decodes, rest.decode);
      }

  next_packet-pop :
      (r : FrameReader) (frame : Bytes) (rest : List Bytes)
      → r.oversize_dropped ≡ 0
      → r.ready ≡ frame ∷ rest
      → next_packet checksum r ≡ (record r { ready = rest }, decode_frame checksum frame)
  unfolding next_packet
  next_packet-pop r frame rest o e = ground arith

  drain-Decode :
      (frames : List Bytes) (ps : List Packet) (r : FrameReader)
      → r.oversize_dropped ≡ 0
      → r.ready ≡ frames
      → Decode frames ps
      → drain checksum (length ps) r ≡ map (λ p. ok (some p)) ps
  unfolding drain
  drain-Decode [] [] r o e d = refl
  drain-Decode [] (p ∷ ps) r o e d = absurd d
  drain-Decode (f ∷ fs) [] r o e d = absurd d
  drain-Decode (f ∷ fs) (p ∷ ps) r o e d =
      let popped = next_packet-pop r f fs o e in
      λ i.
        (ap (λ (x : FrameReader × Fallible (Option Packet)). x.1) popped ∙ d.0) i
        ∷ (ap (λ (x : FrameReader × Fallible (Option Packet)). drain checksum (length ps) x.0)
                popped
              ∙ drain-Decode fs ps (record r { ready = fs }) o refl d.1)
            i

  -- Packets that are sent one after the other over a byte stream come out of a new reader, in order
  -- and unchanged, however the stream cuts their bytes into blocks. Each packet is made by
  -- `Packet::new` from a message whose numbers fit their fields, whose texts are UTF-8 of at most
  -- 32 bytes (an error's text 255), that is a valid frame if it is a browser frame, and whose
  -- payload has at most 4096 bytes. The checksum has 16 bits.
  pub drain-Sent :
      (ps : List Packet) (wire : Bytes) (blocks : List Bytes)
      → All IsSendable ps
      → Sent checksum ps wire
      → joined blocks ≡ wire
      → drain checksum (length ps) (feed_all new blocks) ≡ map (λ p. ok (some p)) ps
  drain-Sent ps wire blocks s sent e =
      let fed = feed-Holds new new-IsReader (record { empty = refl; reading = refl }) s sent in
      ap (drain checksum (length ps)) (feed_all-joined blocks new ∙ ap (feed new) e ∙ fed.holds)
      ∙ drain-Decode fed.frames ps (record new { ready = fed.frames }) refl refl fed.decode
