-- ===== src/Transport/Framing/Resync.antt =====
-- A whole frame, fed in any state.
use wiredesk.Base.{
  ℕ, ◌+◌, ◌≤◌, ◌<◌, ◌≡◌, ◌≢◌, refl, sym, ap, ◌∙◌, false, inl, inr, [], ◌∷◌, ◌++◌, append-nil,
  append_assoc, length, length-append, All, arith, Bool-cases,
}
use wiredesk.Base.Bytes.{Bytes}
use wiredesk.Transport.Framing.{FrameReader, end_frame, push_byte, feed_byte, feed}
use wiredesk.Transport.Framing.Invariant.{IsReader}

-- The reader at a frame's start: nothing assembled, nothing skipped.
pub record IsIdle (r : FrameReader) : Type 0 where
  pub empty : r.partial ≡ []
  pub reading : r.resyncing ≡ false

pub feed-append : (xs ys : Bytes) (r : FrameReader) → feed r (xs ++ ys) ≡ feed (feed r xs) ys
feed-append [] ys r = refl
feed-append (x ∷ xs) ys r = feed-append xs ys (feed_byte r x)

end_frame-IsIdle :
    (r : FrameReader) (bs : Bytes) → r.partial ≡ bs → r.resyncing ≡ false → IsIdle (end_frame r bs)
unfolding end_frame
end_frame-IsIdle r [] e s = record { empty = e; reading = s }
end_frame-IsIdle r (b ∷ bs) e s = record { empty = refl; reading = s }

-- A delimiter ends whatever was going on.
pub feed_byte-delimiter : (r : FrameReader) → IsReader r → IsIdle (feed_byte r 0)
unfolding feed_byte
feed_byte-delimiter r v = elim (Bool-cases r.resyncing) [
  | inl skipping ↦ simp skipping (record { empty = v.discarded skipping; reading = refl })
  | inr reading ↦ simp reading (end_frame-IsIdle r r.partial refl reading)
]

feed_byte-body :
    (r : FrameReader) (b : ℕ)
    → r.resyncing ≡ false
    → b ≢ 0
    → length r.partial < 8192
    → feed_byte r b ≡ record r { partial = r.partial ++ b ∷ [] }
unfolding feed_byte push_byte
feed_byte-body r b s n h = ground (arith, length-append r.partial (b ∷ []))

feed-body :
    (body : Bytes) (r : FrameReader)
    → r.resyncing ≡ false
    → All (λ b. b ≢ 0) body
    → length r.partial + length body ≤ 8192
    → feed r body ≡ record r { partial = r.partial ++ body }
feed-body [] r s n h = λ i. record r { partial = sym (append-nil r.partial) i }
feed-body (b ∷ body) r s n h =
    ap (λ (q : FrameReader). feed q body) (feed_byte-body r b s n.0 (omega arith))
    ∙ feed-body body (record r { partial = r.partial ++ b ∷ [] }) s n.1
        (omega (arith, length-append r.partial (b ∷ [])))
    ∙ (λ i. record r { partial = append_assoc r.partial (b ∷ []) body i })

feed_byte-end :
    (r : FrameReader) (body : Bytes)
    → r.resyncing ≡ false
    → r.partial ≡ body
    → 0 < length body
    → feed_byte r 0 ≡ record r { partial = []; ready = r.ready ++ (body ++ 0 ∷ []) ∷ [] }
unfolding feed_byte end_frame
feed_byte-end r [] s e n = absurd (omega arith)
feed_byte-end r (b ∷ body) s e n = ground arith

-- In every state of the reader, be it inside a frame, behind line noise, or skipping an oversize
-- frame: a frame between two delimiters (a non-empty body without 0, within the limit) is added to
-- the complete frames, after what the leading delimiter itself completes, and the reader is idle.
pub feed_frame :
    (r : FrameReader) (body : Bytes)
    → IsReader r
    → All (λ b. b ≢ 0) body
    → 0 < length body
    → length body ≤ 8192
    → (feed r (0 ∷ (body ++ 0 ∷ []))
        ≡ record (feed_byte r 0) { ready = (feed_byte r 0).ready ++ (body ++ 0 ∷ []) ∷ [] })
      × IsIdle (feed r (0 ∷ (body ++ 0 ∷ [])))
feed_frame r body v z n h =
    (whole, rw whole (record { empty = idle.empty; reading = idle.reading }))
  where
    idle : IsIdle (feed_byte r 0)
    idle = feed_byte-delimiter r v

    open' : FrameReader
    open' = record (feed_byte r 0) { partial = body }

    assembled : feed (feed_byte r 0) body ≡ open'
    assembled =
        feed-body body (feed_byte r 0) idle.reading z (omega (arith, ap length idle.empty))
        ∙ (λ i. record (feed_byte r 0) { partial = ap (λ (p : Bytes). p ++ body) idle.empty i })

    whole :
        feed r (0 ∷ (body ++ 0 ∷ []))
        ≡ record (feed_byte r 0) { ready = (feed_byte r 0).ready ++ (body ++ 0 ∷ []) ∷ [] }
    whole =
        feed-append body (0 ∷ []) (feed_byte r 0)
        ∙ ap (λ (q : FrameReader). feed_byte q 0) assembled
        ∙ feed_byte-end open' body idle.reading refl n
        ∙ (λ i. record (feed_byte r 0) {
          partial = sym idle.empty i;
          ready = (feed_byte r 0).ready ++ (body ++ 0 ∷ []) ∷ [];
        })
