-- ===== src/Transport/Serial/Jam.antt =====
-- A frame that does not decode stays in the buffer, since only a decoded one is cleared.
use wiredesk.Base.{
  ℕ, zero, suc, ◌+◌, ◌-◌, ◌≤◌, ◌<◌, ◌≡◌, ◌≢◌, ◌⊎◌, refl, ap, ◌∙◌, false, inl, inr, List, [], ◌∷◌,
  ◌++◌, map, append_assoc, ltb, ◌==◌, ==_iff, Bool-cases, if◌then◌else◌, length, length-append, All,
  arith,
}
use wiredesk.Base.Bytes.{Bytes}
use wiredesk.Base.Result.{Result, err}
use wiredesk.Core.Error.{WireDeskError, cobs_decode}
use wiredesk.Protocol.Cobs.{DecodeError, unexpected_zero, truncated, decode, decode_loop}
use wiredesk.Protocol.Cobs.RoundTrip.{strip_delimiter-append}
use wiredesk.Transport.Serial.Frames.{
  Slowly, read_frame-delimiter, read_frame-push, read_frame-body,
}
use wiredesk.Transport.Serial.{
  is_empty, Arrival, byte, Reader, Outcome, returned, waiting, Call, settle, read_frame,
  decode_held,
}

shift : (i n : ℕ) → i + 1 + n ≡ i + suc n
shift i n = omega arith

differ : {i : ℕ} → ◌≡◌ {A = Result DecodeError Bytes} (err (unexpected_zero i)) (err truncated) → ⊥
differ e = cc

-- Data that stop inside a block meet the delimiter behind them instead.
loop-stuck :
    (data' more : Bytes) (left code i : ℕ) (output : Bytes)
    → decode_loop data' left code i output ≡ err truncated
    → decode_loop (data' ++ 0 ∷ more) left code i output ≡ err (unexpected_zero (i + length data'))
unfolding decode_loop
loop-stuck [] more zero code i output e = cc
loop-stuck [] more (suc left) code i output e =
    let start : i ≡ i + 0 = omega arith in λ k. err (unexpected_zero (start k))
loop-stuck (b ∷ rest) more zero code i output e =
    let output' = if ltb code 0xff then output ++ 0 ∷ [] else output in
    elim (Bool-cases (b == 0)) [
      | inl z ↦ absurd (differ (rw z at e))
      | inr n ↦ rw n (
          loop-stuck rest more (b - 1) b (i + 1) output' (rw n at e)
          ∙ (λ k. err (unexpected_zero (shift i (length rest) k))))
    ]
loop-stuck (b ∷ rest) more (suc left) code i output e = elim (Bool-cases (b == 0)) [
  | inl z ↦ absurd (differ (rw z at e))
  | inr n ↦ rw n (
      loop-stuck rest more left code (i + 1) (output ++ b ∷ []) (rw n at e)
      ∙ (λ k. err (unexpected_zero (shift i (length rest) k))))
]

-- The buffer holds a frame that stops inside a block, and a delimiter.
pub record IsJammed (bad : Bytes) (r : Reader) : Type 0 where
  pub junk : Bytes
  pub holds : r.read_buf ≡ bad ++ 0 ∷ junk
  pub broken_off : decode (bad ++ 0 ∷ []) ≡ err truncated

abbrev fails : Bytes → Outcome
fails bad = returned (err (WireDeskError.protocol (cobs_decode (unexpected_zero (length bad)))))

-- Every frame that ends in the buffer fails at the old delimiter.
decode-jammed :
    (bad junk : Bytes)
    → decode (bad ++ 0 ∷ []) ≡ err truncated
    → decode ((bad ++ 0 ∷ junk) ++ 0 ∷ []) ≡ err (unexpected_zero (length bad))
unfolding decode
decode-jammed bad junk e =
    let position : 0 + length bad ≡ length bad = omega arith in
    rw (strip_delimiter-append (bad ++ 0 ∷ junk)) (
      loop-stuck bad junk 0 255 0 [] (rw (strip_delimiter-append bad) at e)
      ∙ (λ k. err (unexpected_zero (position k))))

jammed-nonempty : (bad junk : Bytes) → is_empty (bad ++ 0 ∷ junk) ≡ false
jammed-nonempty [] junk = refl
jammed-nonempty (b ∷ bad) junk = refl

-- What a call on a jammed reader does: it is still waiting, or it fails and leaves a jammed reader,
-- and bytes that fit beside it.
pub record Fails (bad : Bytes) (call : Call) : Type 0 where
  pub reader : IsJammed bad call.reader
  pub outcome :
      (call.outcome ≡ waiting)
      ⊎ ((call.outcome ≡ fails bad)
          × ((left : Bytes) × (call.rest ≡ map byte left)
              × (length call.reader.read_buf + length left ≤ 8192)))

module _ (compute : Bytes → ℕ) where
  decode_held-err :
      (r : Reader) (rest : List Arrival) {e : DecodeError}
      → decode r.read_buf ≡ err e
      → decode_held compute r rest ≡ record {
        reader = record r { partial_timeouts = 0 };
        rest = rest;
        outcome = returned (err (WireDeskError.protocol (cobs_decode e)));
      }
  unfolding decode_held settle
  decode_held-err r rest h = ap (λ d. settle compute d r rest) h

  decode_held-Fails :
      (r : Reader) (bad junk bytes : Bytes)
      → r.read_buf ≡ (bad ++ 0 ∷ junk) ++ 0 ∷ []
      → decode (bad ++ 0 ∷ []) ≡ err truncated
      → length r.read_buf + length bytes ≤ 8192
      → Fails bad (decode_held compute r (map byte bytes))
  decode_held-Fails r bad junk bytes e j h =
      rw (decode_held-err r (map byte bytes) (ap decode e ∙ decode-jammed bad junk j)) (record {
        reader = record {
          junk = junk ++ 0 ∷ [];
          holds = e ∙ append_assoc bad (0 ∷ junk) (0 ∷ []);
          broken_off = j;
        };
        outcome = inr (refl, (bytes, refl, h));
      })

  -- Once a frame that stops inside a block has ended in the buffer, whatever bytes arrive, while
  -- they fit beside it in the 8192 bytes of a frame: a call is still waiting, or it fails with a
  -- COBS error at the same position, and the reader is as jammed as before.
  pub read_frame-Fails :
      (bytes bad : Bytes) (r : Reader)
      → IsJammed bad r
      → length r.read_buf + length bytes ≤ 8192
      → Fails bad (read_frame compute r (map byte bytes))
  read_frame-Fails [] bad r j h = unfold read_frame in record { reader = j; outcome = inl refl }
  read_frame-Fails (b ∷ bytes) bad r j h =
      let size = length-append r.read_buf (b ∷ []) in
      let pushed : Reader = record r { read_buf = r.read_buf ++ b ∷ [] } in
      let held : r.read_buf ++ b ∷ [] ≡ (bad ++ 0 ∷ j.junk) ++ b ∷ [] =
        ap (λ (x : Bytes). x ++ b ∷ []) j.holds in
      elim (Bool-cases (b == 0)) [
        | inl z ↦
            rw
              (read_frame-delimiter compute r b (map byte bytes) z
                (ap is_empty j.holds ∙ jammed-nonempty bad j.junk))
              (decode_held-Fails pushed bad j.junk bytes
                (held ∙ ap (λ x. (bad ++ 0 ∷ j.junk) ++ x ∷ []) ((==_iff b 0).0 z)) j.broken_off
                (omega (arith, size)))
        | inr n ↦ rw (read_frame-push compute r b (map byte bytes) n (omega (arith, size))) (
            read_frame-Fails bytes bad pushed
              (record {
                junk = j.junk ++ b ∷ [];
                holds = held ∙ append_assoc bad (0 ∷ j.junk) (b ∷ []);
                broken_off = j.broken_off;
              })
              (omega (arith, size)))
      ]

  -- A frame of non-zero bytes that ends inside a block: the call that reads it, over a line with at
  -- most 500 pauses, reports it as truncated and leaves the reader jammed.
  pub read_frame-jams :
      {b : ℕ} {tail : Bytes} {n : ℕ} {line : List Arrival} (bad : Bytes) (r : Reader)
      (rest : List Arrival)
      → b ∷ tail ≡ bad ++ 0 ∷ []
      → Slowly tail n line
      → All (λ x. x ≢ 0) bad
      → 0 < length bad
      → length bad ≤ 8192
      → r.read_buf ≡ []
      → r.partial_timeouts + n ≤ 500
      → decode (bad ++ 0 ∷ []) ≡ err truncated
      → let call = read_frame compute r (byte b ∷ (line ++ rest)) in
        (call.outcome ≡ returned (err (WireDeskError.protocol (cobs_decode truncated))))
        × (call.rest ≡ rest)
        × (call.reader.read_buf ≡ bad ++ 0 ∷ [])
        × IsJammed bad call.reader
  read_frame-jams {b} {tail} {n} bad r rest e w a l h c t d =
      rw
        (
          read_frame-body compute bad r rest e w a l h c t,
          decode_held-err
              (record { read_buf = b ∷ tail; partial_timeouts = r.partial_timeouts + n }) rest
              (ap decode e ∙ d),
        )
        (refl, refl, e, record { junk = []; holds = e; broken_off = d })
