-- ===== src/Transport/Serial/Frames.antt =====
-- What is sent is received, also over a line that pauses inside the frame.
use wiredesk.Base.{
  ℕ, suc, ◌+◌, ◌≤◌, ◌<◌, ◌≡◌, ◌≢◌, refl, sym, ap, ◌∙◌, true, false, List, [], ◌∷◌, ◌++◌,
  append_assoc, le→ltb, ◌==◌, ==_iff, length, length-append, All, arith,
}
use wiredesk.Base.Bytes.{Bytes}
use wiredesk.Base.Result.{ok, >>=-eq-ok}
use wiredesk.Core.Error.{Fallible}
use wiredesk.Protocol.Cobs.{decode, encode}
use wiredesk.Protocol.Cobs.RoundTrip.{decode-encode}
use wiredesk.Protocol.Cobs.Size.{encode_frame_shape}
use wiredesk.Protocol.Packet.{Packet, from_bytes, to_bytes}
use wiredesk.Protocol.Packet.RoundTrip.{length-to_bytes}
use wiredesk.Transport.Framing.Delivery.{IsSendable, from_bytes-sent}
use wiredesk.Transport.Serial.{
  is_empty, Arrival, byte, silent, Reader, opened, returned, settle, max_frame_size,
  max_partial_timeouts, read_frame, decode_held, send,
}

-- Bytes that arrive with `n` pauses before or between them.
pub data Slowly : Bytes → ℕ → List Arrival → Type 0 where
  done : Slowly [] 0 []
  arrives :
      {b : ℕ} {bs : Bytes} {n : ℕ} {line : List Arrival}
      → Slowly bs n line
      → Slowly (b ∷ bs) n (byte b ∷ line)
  pauses :
      {b : ℕ} {bs : Bytes} {n : ℕ} {line : List Arrival}
      → Slowly (b ∷ bs) n line
      → Slowly (b ∷ bs) (suc n) (silent ∷ line)

append-nonempty : (xs : Bytes) (b : ℕ) → is_empty (xs ++ b ∷ []) ≡ false
append-nonempty [] b = refl
append-nonempty (x ∷ xs) b = refl

no_end : (xs : Bytes) → [] ≡ xs ++ 0 ∷ [] → ⊥
no_end [] e = cc
no_end (x ∷ xs) e = cc

too_long : {b c : ℕ} {bs : Bytes} → b ∷ c ∷ bs ≡ 0 ∷ [] → ⊥
too_long e = cc

nonzero : {b x : ℕ} → b ≡ x → x ≢ 0 → (b == 0) ≡ false
nonzero e h = ground arith

module _ (compute : Bytes → ℕ) where
  pub read_frame-delimiter :
      (r : Reader) (b : ℕ) (rest : List Arrival)
      → (b == 0) ≡ true
      → is_empty r.read_buf ≡ false
      → read_frame compute r (byte b ∷ rest)
        ≡ decode_held compute (record r { read_buf = r.read_buf ++ b ∷ [] }) rest
  unfolding read_frame
  read_frame-delimiter r b rest z e = simp (z, e) refl

  pub read_frame-push :
      (r : Reader) (b : ℕ) (rest : List Arrival)
      → (b == 0) ≡ false
      → length (r.read_buf ++ b ∷ []) ≤ 8192
      → read_frame compute r (byte b ∷ rest)
        ≡ read_frame compute (record r { read_buf = r.read_buf ++ b ∷ [] }) rest
  unfolding read_frame
  read_frame-push r b rest n h = rw (n, le→ltb max_frame_size (length (r.read_buf ++ b ∷ [])) h)

  read_frame-skip :
      (r : Reader) (rest : List Arrival)
      → is_empty r.read_buf ≡ true
      → read_frame compute r (byte 0 ∷ rest) ≡ read_frame compute r rest
  unfolding read_frame
  read_frame-skip r rest e = simp e refl

  read_frame-pause :
      (r : Reader) (rest : List Arrival)
      → is_empty r.read_buf ≡ false
      → r.partial_timeouts + 1 ≤ 500
      → read_frame compute r (silent ∷ rest)
        ≡ read_frame compute (record r { partial_timeouts = r.partial_timeouts + 1 }) rest
  unfolding read_frame
  read_frame-pause r rest e h =
      simp (e, le→ltb max_partial_timeouts (r.partial_timeouts + 1) h) refl

  -- The loop collects a frame's bytes, and then what it has collected is decoded.
  collect :
      {w : Bytes} {n : ℕ} {line : List Arrival} (body : Bytes) (r : Reader) (rest : List Arrival)
      → Slowly w n line
      → w ≡ body ++ 0 ∷ []
      → All (λ b. b ≢ 0) body
      → is_empty r.read_buf ≡ false
      → length r.read_buf + length body ≤ 8192
      → r.partial_timeouts + n ≤ 500
      → read_frame compute r (line ++ rest)
        ≡ decode_held compute
            (record {
              read_buf = r.read_buf ++ (body ++ 0 ∷ []);
              partial_timeouts = r.partial_timeouts + n;
            })
            rest
  collect body r rest done e a f h t = absurd (no_end body e)
  collect [] r rest (arrives {b} done) e a f h t =
      let zero' : b ≡ 0 = cc e in
      let count : r.partial_timeouts ≡ r.partial_timeouts + 0 = omega arith in
      read_frame-delimiter r b rest ((==_iff b 0).1 zero') f ∙ (λ k.
        decode_held compute
          (record { read_buf = r.read_buf ++ zero' k ∷ []; partial_timeouts = count k }) rest)
  collect [] r rest (arrives (arrives s)) e a f h t = absurd (too_long e)
  collect [] r rest (arrives (pauses s)) e a f h t = absurd (too_long e)
  collect (x ∷ body) r rest (arrives {b} {bs} {n} {line} s) e a f h t =
      let same : b ≡ x = cc e in
      let pushed : Reader = record r { read_buf = r.read_buf ++ b ∷ [] } in
      let size = length-append r.read_buf (b ∷ []) in
      read_frame-push r b (line ++ rest) (nonzero same a.0) (omega (arith, size))
      ∙ collect body pushed rest s (cc e) a.1 (append-nonempty r.read_buf b) (omega (arith, size)) t
      ∙ ap
          (λ (y : Bytes).
            decode_held compute (record { read_buf = y; partial_timeouts = r.partial_timeouts + n })
              rest)
          (append_assoc r.read_buf (b ∷ []) (body ++ 0 ∷ [])
            ∙ (λ k. r.read_buf ++ same k ∷ (body ++ 0 ∷ [])))
  collect body r rest (pauses {b} {bs} {n} {line} s) e a f h t =
      let shift : r.partial_timeouts + 1 + n ≡ r.partial_timeouts + suc n = omega arith in
      read_frame-pause r (line ++ rest) f (omega arith)
      ∙ collect body (record r { partial_timeouts = r.partial_timeouts + 1 }) rest s e a f h
          (omega arith)
      ∙ (λ k.
          decode_held compute
            (record { read_buf = r.read_buf ++ (body ++ 0 ∷ []); partial_timeouts = shift k }) rest)

  -- A frame on the line, from its first byte on.
  pub read_frame-body :
      {b : ℕ} {tail : Bytes} {n : ℕ} {line : List Arrival} (body : Bytes) (r : Reader)
      (rest : List Arrival)
      → b ∷ tail ≡ body ++ 0 ∷ []
      → Slowly tail n line
      → All (λ x. x ≢ 0) body
      → 0 < length body
      → length body ≤ 8192
      → r.read_buf ≡ []
      → r.partial_timeouts + n ≤ 500
      → read_frame compute r (byte b ∷ (line ++ rest))
        ≡ decode_held compute
            (record { read_buf = b ∷ tail; partial_timeouts = r.partial_timeouts + n })
            rest
  read_frame-body [] r rest e w a l h c t = absurd (omega arith)
  read_frame-body {b} {tail} {n} {line} (x ∷ body) r rest e w a l h c t =
      let size : length (r.read_buf ++ b ∷ []) ≡ 1 = ap (λ (y : Bytes). length (y ++ b ∷ [])) c in
      let rest_of : tail ≡ body ++ 0 ∷ [] = cc e in
      let head : b ≡ x = cc e in
      read_frame-push r b (line ++ rest) (nonzero head a.0) (omega (arith, size))
      ∙ collect body (record r { read_buf = r.read_buf ++ b ∷ [] }) rest w rest_of a.1
          (append-nonempty r.read_buf b) (omega (arith, size)) t
      ∙ (λ k.
          decode_held compute
            (record {
              read_buf = (c k ++ b ∷ []) ++ sym rest_of k;
              partial_timeouts = r.partial_timeouts + n;
            })
            rest)

  decode_held-ok :
      (r : Reader) (rest : List Arrival) {raw : Bytes}
      → decode r.read_buf ≡ ok raw
      → decode_held compute r rest
        ≡ record { reader = opened; rest = rest; outcome = returned (from_bytes compute raw) }
  unfolding decode_held settle
  decode_held-ok r rest h = ap (λ d. settle compute d r rest) h

module _ (compute : Bytes → ℕ) (is_u16 : (bytes : Bytes) → compute bytes < 65536) where
  -- What `send` writes for a packet, received by a reader that holds no half frame: also over a
  -- line with `n` pauses inside the frame, while no more than 500 have been counted, one call
  -- returns the packet, leaves what follows the frame on the line, and leaves the reader as it is
  -- when the port is opened. The packet is made by `Packet::new` from a message whose numbers fit
  -- their fields, whose texts are UTF-8 of at most 32 bytes (an error's text 255), that is a valid
  -- frame if it is a browser frame, and whose payload has at most 4096 bytes. The checksum has 16
  -- bits.
  pub read_frame-send :
      (p : Packet) (b : ℕ) (tail : Bytes) (r : Reader) (n : ℕ) (line rest : List Arrival)
      → IsSendable p
      → send compute p ≡ ok (0 ∷ b ∷ tail)
      → Slowly tail n line
      → r.read_buf ≡ []
      → r.partial_timeouts + n ≤ 500
      → read_frame compute r (byte 0 ∷ byte b ∷ (line ++ rest))
        ≡ record { reader = opened; rest = rest; outcome = returned (ok p) }
  unfolding send
  read_frame-send p b tail r n line rest s e w c t =
      let (raw, written, out) = >>=-eq-ok (to_bytes compute p) (λ x. ok (0 ∷ encode x)) e in
      let (body, shape, nonzero, nonempty, bounded) = encode_frame_shape raw in
      let frame : encode raw ≡ b ∷ tail = cc out in
      let decoded : decode (b ∷ tail) ≡ ok raw = sym (ap decode frame) ∙ decode-encode raw in
      read_frame-skip compute r (byte b ∷ (line ++ rest)) (ap is_empty c)
      ∙ read_frame-body compute body r rest (sym frame ∙ shape) w nonzero nonempty
          (omega (arith, length-to_bytes compute is_u16 p written)) c t
      ∙ decode_held-ok compute
          (record { read_buf = b ∷ tail; partial_timeouts = r.partial_timeouts + n }) rest decoded
      ∙ ap (λ (x : Fallible Packet). record { reader = opened; rest = rest; outcome = returned x })
          (from_bytes-sent compute is_u16 p raw s written)
