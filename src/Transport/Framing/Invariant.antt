-- ===== src/Transport/Framing/Invariant.antt =====
-- What holds of a reader whatever the line delivers.
use wiredesk.Base.{
  ℕ, ◌≤◌, ◌<◌, ◌≡◌, ◌≢◌, refl, ap, subst, true, false, inl, inr, List, [], ◌∷◌, ◌++◌, ltb, ltb→le,
  ◌==◌, ==_iff, length, All, All-append, arith, Bool-cases,
}
use wiredesk.Base.Bytes.{Bytes}
use wiredesk.Transport.Framing.{
  FrameReader, new, end_frame, push_byte, feed_byte, feed, abandon_partial, next_packet, pop_frame,
  max_frame_size,
}

-- A complete frame: a body without 0 that is not empty and within the limit, and the delimiter.
pub record IsFrame (frame : Bytes) : Type 0 where
  pub body : Bytes
  pub splits : frame ≡ body ++ 0 ∷ []
  pub nonzero : All (λ b. b ≢ 0) body
  pub nonempty : 0 < length body
  pub bounded : length body ≤ 8192

pub record IsReader (r : FrameReader) : Type 0 where
  pub bounded : length r.partial ≤ 8192
  pub nonzero : All (λ b. b ≢ 0) r.partial
  pub discarded : r.resyncing ≡ true → r.partial ≡ []
  pub frames : All IsFrame r.ready

pub new-IsReader : IsReader new
new-IsReader = record { bounded = omega arith; nonzero = tt; discarded = λ e. refl; frames = tt }

end_frame-IsReader :
    (r : FrameReader) (bs : Bytes) → r.partial ≡ bs → IsReader r → IsReader (end_frame r bs)
unfolding end_frame
end_frame-IsReader r [] e v = v
end_frame-IsReader r (b ∷ bs) e v = record {
  bounded = omega arith;
  nonzero = tt;
  discarded = λ _. refl;
  frames = All-append IsFrame r.ready (((b ∷ bs) ++ 0 ∷ []) ∷ []) v.frames (frame, tt);
}
  where
    frame : IsFrame ((b ∷ bs) ++ 0 ∷ [])
    frame = record {
      body = b ∷ bs;
      splits = refl;
      nonzero = subst (All (λ x. x ≢ 0)) e v.nonzero;
      nonempty = omega arith;
      bounded = rw (ap length e) at v.bounded;
    }

push_byte-IsReader :
    (r : FrameReader) (b : ℕ) → r.resyncing ≡ false → b ≢ 0 → IsReader r → IsReader (push_byte r b)
unfolding push_byte
push_byte-IsReader r b s n v =
    elim (Bool-cases (ltb max_frame_size (length (r.partial ++ b ∷ [])))) [
      | inl over ↦
          rw over (record {
            bounded = omega arith;
            nonzero = tt;
            discarded = λ _. refl;
            frames = v.frames;
          })
      | inr fits ↦ rw fits (record {
        bounded = ltb→le _ _ fits;
        nonzero = All-append (λ x. x ≢ 0) r.partial (b ∷ []) v.nonzero (n, tt);
        discarded = λ e. cc;
        frames = v.frames;
      })
    ]

feed_byte-IsReader : (r : FrameReader) (b : ℕ) → IsReader r → IsReader (feed_byte r b)
unfolding feed_byte
feed_byte-IsReader r b v = elim (Bool-cases r.resyncing) [
  | inl skipping ↦ elim (Bool-cases (b == 0)) [
    | inl z ↦
        rw (skipping, z)
          (record {
            bounded = v.bounded;
            nonzero = v.nonzero;
            discarded = λ e. cc;
            frames = v.frames;
          })
    | inr z ↦ simp (skipping, z) v
  ]
  | inr reading ↦ elim (Bool-cases (b == 0)) [
    | inl z ↦ simp (reading, z) (end_frame-IsReader r r.partial refl v)
    | inr z ↦ simp (reading, z) (push_byte-IsReader r b reading (λ e. cc ((==_iff b 0).1 e)) v)
  ]
]

pub feed-IsReader : (bytes : Bytes) (r : FrameReader) → IsReader r → IsReader (feed r bytes)
feed-IsReader [] r v = v
feed-IsReader (b ∷ bytes) r v = feed-IsReader bytes (feed_byte r b) (feed_byte-IsReader r b v)

module _ (checksum : Bytes → ℕ) where
  pop_frame-IsReader :
      (r : FrameReader) (frames : List Bytes)
      → r.ready ≡ frames
      → IsReader r
      → IsReader (pop_frame checksum r frames).0
  unfolding pop_frame
  pop_frame-IsReader r [] e v = v
  pop_frame-IsReader r (frame ∷ rest) e v = record {
    bounded = v.bounded;
    nonzero = v.nonzero;
    discarded = v.discarded;
    frames = (subst (All IsFrame) e v.frames).1;
  }

  next_packet-IsReader : (r : FrameReader) → IsReader r → IsReader (next_packet checksum r).0
  unfolding next_packet
  next_packet-IsReader r v = elim (Bool-cases (ltb 0 r.oversize_dropped)) [
    | inl some' ↦ rw some' (record {
      bounded = v.bounded;
      nonzero = v.nonzero;
      discarded = v.discarded;
      frames = v.frames;
    })
    | inr none' ↦ simp none' (pop_frame-IsReader r r.ready refl v)
  ]

  -- What a stream transport does with its reader: a block read, the partial-frame timeout, and a
  -- request for the next packet.
  pub data Step : FrameReader → FrameReader → Type 0 where
    received : (r : FrameReader) (bytes : Bytes) → Step r (feed r bytes)
    timed_out : (r : FrameReader) → Step r (abandon_partial r)
    asked : (r : FrameReader) → Step r (next_packet checksum r).0

  pub data Reach (r : FrameReader) : FrameReader → Type 0 where
    here : Reach r r
    next : {s t : FrameReader} → Reach r s → Step s t → Reach r t

  Step-IsReader : {r s : FrameReader} → Step r s → IsReader r → IsReader s
  unfolding abandon_partial
  Step-IsReader (received r bytes) v = feed-IsReader bytes r v
  Step-IsReader (timed_out r) v = record {
    bounded = omega arith;
    nonzero = tt;
    discarded = λ _. refl;
    frames = v.frames;
  }
  Step-IsReader (asked r) v = next_packet-IsReader r v

  -- In every state that a reader reaches from a new one, by blocks of any bytes, timeouts and
  -- requests in any order: the frame under assembly is within the limit and holds no 0, nothing is
  -- kept while an oversize frame is skipped, and every frame that waits is a non-empty body
  -- without 0, within the limit, and its delimiter.
  pub Reach-IsReader : {r : FrameReader} → Reach new r → IsReader r
  Reach-IsReader here = new-IsReader
  Reach-IsReader (next path step) = Step-IsReader step (Reach-IsReader path)
