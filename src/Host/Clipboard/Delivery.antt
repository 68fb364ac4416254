-- ===== src/Host/Clipboard/Delivery.antt =====
-- Whole transfers of the clipboard.
use wiredesk.Base.{
  ℕ, zero, suc, ◌+◌, ◌-◌, ◌%◌, ◌≤◌, ◌<◌, ◌≡◌, refl, sym, ap, ◌∙◌, subst, true, false, not, ◌&&◌,
  List, [], ◌∷◌, ◌++◌, none, some, le→ltb, ◌==◌, length, get_elem?, get_or, take, replicate, All,
  length-replicate, arith,
}
use wiredesk.Base.Bytes.{Bytes}
use wiredesk.Base.Chunks.{chunks, joined, joined-chunks, length-chunks, chunks-nonempty}
use wiredesk.Protocol.Message.{Message}
use wiredesk.Host.Clipboard.{
  chunk_size, format_file, ClipboardSync, reset_reassembly, numbered, build_offer_and_chunks,
}
use wiredesk.Host.Clipboard.Incoming.{Platform, is_known, cap, on_offer, on_message, deliver, arm}
use wiredesk.Host.Clipboard.Held.{held-none}
use wiredesk.Host.Clipboard.Transfer.{run, chunks_at, has_all, followed, run-chunks, get_elem?-some}

pub cap-le : (format : ℕ) → cap format ≤ 20975618
cap-le format = ground arith

-- Places in the list of chunks.
length-numbered : (i : ℕ) (ps : List Bytes) → length (numbered i ps) ≡ length ps
length-numbered i [] = refl
length-numbered i (p ∷ ps) = ap suc (length-numbered (suc i) ps)

get_or-numbered :
    (i k : ℕ) (ps : List Bytes) (offer : Message) {piece : Bytes}
    → get_elem? ps k ≡ some piece
    → get_or (numbered i ps) k offer ≡ Message.clip_chunk ((i + k) % 65536) piece
get_or-numbered i k [] offer g = cc
get_or-numbered i zero (p ∷ ps) offer {piece} g =
    let same : p ≡ piece = cc g in
    let at : i % 65536 ≡ (i + 0) % 65536 = omega arith in λ t. Message.clip_chunk (at t) (same t)
get_or-numbered i (suc k) (p ∷ ps) offer {piece} g =
    let at : (suc i + k) % 65536 ≡ (i + suc k) % 65536 = omega arith in
    get_or-numbered (suc i) k ps offer g ∙ ap (λ (x : ℕ). Message.clip_chunk x piece) at

-- An offer that is taken.
on_offer-arm :
    (s : ClipboardSync) (format total : ℕ)
    → is_known format ≡ true
    → ((format == format_file) && not s.receive_files) ≡ false
    → total ≤ cap format
    → on_offer s format total ≡ (arm s format total, (none, []))
unfolding on_offer
on_offer-arm s format total k r h = rw (k, r, le→ltb (cap format) total h) refl

module _ (p : Platform) (s : ClipboardSync) (format : ℕ) (payload : Bytes) where
  abbrev pieces : List Bytes
  pieces = chunks (length payload) chunk_size payload

  abbrev sent : List Message
  sent = build_offer_and_chunks format payload

  run-pieces :
      (arrivals : List ℕ) (k : ℕ)
      → 0 < length payload
      → length payload ≤ 20975618
      → All (λ i. i < length pieces) arrivals
      → k < length pieces
      → has_all (length pieces) arrivals ≡ false
      → has_all (length pieces) (arrivals ++ k ∷ []) ≡ true
      → run p (arm s format (length payload)) (chunks_at sent (arrivals ++ k ∷ []))
        ≡ deliver p format (reset_reassembly s) payload
  unfolding build_offer_and_chunks
  run-pieces arrivals k h c a b f g =
      let whole = joined-chunks (length payload) chunk_size payload (omega arith) (omega arith) in
      let count = length-chunks (length payload) chunk_size payload (omega arith) (omega arith) in
      let none_yet = replicate (length pieces) false in
      let empty = held-none 0 pieces (length pieces) in
      let bytes : length (joined pieces) ≡ length payload = ap length whole in
      ap (λ x. run p x (chunks_at sent (arrivals ++ k ∷ [])))
        (λ i. record (arm s format (sym bytes i)) {
          received = sym empty.0 i;
          received_total = sym empty.1 i;
          incoming_progress = sym empty.1 i;
        })
      ∙ run-chunks p s format pieces (omega (arith, bytes)) (omega (arith, bytes))
          (chunks-nonempty (length payload) chunk_size payload (omega arith)) (numbered 0 pieces)
          (Message.clip_offer format (length payload % 4294967296))
          (λ i piece at.
            get_or-numbered 0 i pieces (Message.clip_offer format (length payload % 4294967296)) at
            ∙ ap (λ (x : ℕ). Message.clip_chunk x piece)
                (omega (arith, get_elem?-some pieces i at, count)))
          arrivals k none_yet (length-replicate (length pieces) false) a b f g
      ∙ ap (deliver p format (reset_reassembly s)) whole

  -- An offer and the chunks of a payload that fits its format, which is a file's only where the
  -- session receives files: in whatever order and with whatever repetitions the chunks arrive, up to
  -- the last one that is missing, all calls of the system together are those that deliver exactly the
  -- payload once, and the state behind them is that delivery's, with an idle reassembly.
  pub run-build_offer_and_chunks :
      (arrivals : List ℕ) (k : ℕ)
      → 0 < length payload
      → is_known format ≡ true
      → ((format == format_file) && not s.receive_files) ≡ false
      → length payload ≤ cap format
      → All (λ i. i < length sent - 1) arrivals
      → k < length sent - 1
      → has_all (length sent - 1) arrivals ≡ false
      → has_all (length sent - 1) (arrivals ++ k ∷ []) ≡ true
      → run p s (take 1 sent ++ chunks_at sent (arrivals ++ k ∷ []))
        ≡ deliver p format (reset_reassembly s) payload
  unfolding build_offer_and_chunks on_message
  run-build_offer_and_chunks arrivals k h known wanted fits a b f g =
      let places : length sent - 1 ≡ length pieces = omega (arith, length-numbered 0 pieces) in
      let word : length payload % 4294967296 ≡ length payload = omega (arith, cap-le format) in
      ap (followed p (chunks_at sent (arrivals ++ k ∷ [])))
        (ap (on_offer s format) word ∙ on_offer-arm s format (length payload) known wanted fits)
      ∙ run-pieces arrivals k h (omega (arith, cap-le format))
          (subst (λ n. All (λ i. i < n) arrivals) places a) (omega (arith, places))
          (subst (λ n. has_all n arrivals ≡ false) places f)
          (subst (λ n. has_all n (arrivals ++ k ∷ []) ≡ true) places g)
