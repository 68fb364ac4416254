-- ===== src/Host/Clipboard/Transfer.antt =====
-- From `build_offer_and_chunks` at one end to `on_offer` and `on_chunk` at the other.
use wiredesk.Base.{
  ℕ, zero, suc, ◌+◌, ◌%◌, ◌<◌, ◌≡◌, refl, sym, ap, ◌∙◌, min, Bool, true, false, inl, inr, List, [],
  ◌∷◌, ◌++◌, none, some, leb, ◌==◌, length, get_elem?, get_or, set, replicate, All, get_elem?-below,
  length-set, Bool-cases, arith, append-nil,
}
use wiredesk.Base.Bytes.{Bytes}
use wiredesk.Base.Chunks.{joined, full}
use wiredesk.Protocol.Message.{Message}
use wiredesk.Host.Clipboard.{Received, ClipboardSync, reset_reassembly, contains_key, insert}
use wiredesk.Host.Clipboard.Incoming.{
  Platform, Effect, Answer, arm, deliver, commit, keep, commit_if_complete, on_chunk, on_message,
}
use wiredesk.Host.Clipboard.Held.{
  held, size, contains_key-held, insert-held, size-set, set-marked, size-le, size-lt, size-full,
  contiguous-held, concatenated-held,
}
use wiredesk.Host.Clipboard.Delivered.{deliver-reset}

-- A history of messages: the state behind it, and all calls of the system that it made.
abbrev pub run : Platform → ClipboardSync → List Message → ClipboardSync × List Effect
run p s [] = (s, [])
run p s (m ∷ rest) =
    let step = on_message p s m in let later = run p step.0 rest in (later.0, step.1.1 ++ later.1)

-- What a message did, and the messages behind it.
abbrev pub followed : Platform → List Message → ClipboardSync × Answer → ClipboardSync × List Effect
followed p rest step = let later = run p step.0 rest in (later.0, step.1.1 ++ later.1)

abbrev unanswered : ClipboardSync × List Effect → ClipboardSync × Answer
unanswered d = (d.0, (none, d.1))

-- The chunks of a transfer that arrive, by their places behind the offer.
abbrev pub chunks_at : List Message → List ℕ → List Message
chunks_at sent [] = []
chunks_at (offer ∷ sent) (k ∷ rest) = get_or sent k offer ∷ chunks_at (offer ∷ sent) rest
chunks_at [] (k ∷ rest) = []

abbrev pub marks : List Bool → List ℕ → List Bool
marks mask [] = mask
marks mask (k ∷ rest) = marks (set mask k true) rest

-- Every one of `n` chunks is among the arrivals.
abbrev pub has_all : ℕ → List ℕ → Bool
has_all n arrivals = full (marks (replicate n false) arrivals)

full-set : (mask : List Bool) (k : ℕ) → full mask ≡ true → full (set mask k true) ≡ true
full-set [] k f = refl
full-set (true ∷ mask) zero f = f
full-set (true ∷ mask) (suc k) f = full-set mask k f
full-set (false ∷ mask) k f = cc

full-marks :
    (mask : List Bool) (arrivals : List ℕ) → full mask ≡ true → full (marks mask arrivals) ≡ true
full-marks mask [] f = f
full-marks mask (k ∷ rest) f = full-marks (set mask k true) rest (full-set mask k f)

full-before :
    (mask : List Bool) (arrivals : List ℕ) → full (marks mask arrivals) ≡ false → full mask ≡ false
full-before mask arrivals f = elim (Bool-cases (full mask)) [
  | inl t ↦ cc (f, full-marks mask arrivals t)
  | inr n ↦ n
]

pub get_elem?-some :
    (ps : List Bytes) (k : ℕ) {piece : Bytes} → get_elem? ps k ≡ some piece → k < length ps
get_elem?-some [] k g = cc
get_elem?-some (p ∷ ps) zero g = omega arith
get_elem?-some (p ∷ ps) (suc k) g = omega (arith, get_elem?-some ps k g)

-- A reassembly under way.
abbrev pub under_way : ClipboardSync → ℕ → ℕ → Received → ℕ → ClipboardSync
under_way s format total r n = record (arm s format total) {
  received = r;
  received_total = n;
  incoming_progress = n;
}

module _ (p : Platform) (s : ClipboardSync) (format : ℕ) (ps : List Bytes)
    (some_bytes : 0 < length (joined ps)) (in_word : length (joined ps) < 4294967295)
    (no_empty : All (λ piece. 0 < length piece) ps) where
  abbrev pub part : List Bool → ClipboardSync
  part mask = under_way s format (length (joined ps)) (held 0 ps mask) (size ps mask)

  keep-part :
      (mask : List Bool) (k : ℕ) (piece : Bytes)
      → length mask ≡ length ps
      → get_elem? ps k ≡ some piece
      → keep p (part mask) k piece ≡ part (set mask k true)
  keep-part mask k piece e g = elim (Bool-cases (get_or mask k false)) [
    | inl t ↦ rw (known ∙ t) (λ i.
        under_way s format (length (joined ps)) (kept i) (size ps (sym (set-marked k mask t) i)))
    | inr n ↦
        let grown = size-set k piece ps mask e g n in
        let total : min (size ps mask + length piece % 4294967296) 4294967295
            ≡ size ps (set mask k true) =
          omega (arith, grown, size-le ps (set mask k true)) in
        let progress : (size ps mask + length piece % 4294967296) % 18446744073709551616
            ≡ size ps (set mask k true) =
          omega (arith, grown, size-le ps (set mask k true)) in
        rw (known ∙ n) (λ i. record (arm s format (length (joined ps))) {
          received = kept i;
          received_total = total i;
          incoming_progress = progress i;
        })
  ]
    where
      known : contains_key k (held 0 ps mask) ≡ get_or mask k false
      known = contains_key-held 0 k k ps mask (omega arith) e (get_elem?-some ps k g)

      kept : insert k piece (held 0 ps mask) ≡ held 0 ps (set mask k true)
      kept = insert-held 0 k k piece ps mask (omega arith) e g

  on_chunk-part :
      (mask : List Bool) (k : ℕ) (piece : Bytes)
      → length mask ≡ length ps
      → get_elem? ps k ≡ some piece
      → on_chunk p (part mask) k piece ≡ commit_if_complete p (part (set mask k true))
  unfolding on_chunk
  on_chunk-part mask k piece e g =
      let active : (length (joined ps) == 0) ≡ false = ground arith in
      rw active (ap (commit_if_complete p) (keep-part mask k piece e g))

  -- While a chunk is missing.
  commit-open :
      (mask : List Bool)
      → length mask ≡ length ps
      → full mask ≡ false
      → commit_if_complete p (part mask) ≡ (part mask, [])
  commit-open mask e f =
      let waiting : leb (length (joined ps)) (size ps mask) ≡ false =
        ground (arith, size-lt ps mask no_empty e f) in
      rw waiting refl

  -- With the last chunk.
  commit-full :
      (mask : List Bool)
      → length mask ≡ length ps
      → full mask ≡ true
      → commit_if_complete p (part mask) ≡ deliver p format (reset_reassembly s) (joined ps)
  unfolding commit
  commit-full mask e f =
      let done : leb (length (joined ps)) (size ps mask) ≡ true =
        ground (arith, size-full ps mask e f) in
      let sound : (length (joined ps) % 4294967296 == length (joined ps)) ≡ true = ground arith in
      rw (done, contiguous-held 0 ps mask f, concatenated-held 0 ps mask e f, sound)
        (deliver-reset p format (under_way s format (length (joined ps)) [] (size ps mask))
          (joined ps))

  module _ (sent : List Message) (offer : Message)
      (at : (k : ℕ) (piece : Bytes)
        → get_elem? ps k ≡ some piece
        → get_or sent k offer ≡ Message.clip_chunk k piece) where
    step :
        (mask : List Bool) (k : ℕ)
        → length mask ≡ length ps
        → k < length ps
        → on_message p (part mask) (get_or sent k offer)
          ≡ unanswered (commit_if_complete p (part (set mask k true)))
    unfolding on_message
    step mask k e h =
        let (piece, g) = get_elem?-below ps k h in
        ap (on_message p (part mask)) (at k piece g)
        ∙ ap unanswered (on_chunk-part mask k piece e g)

    pub run-chunks :
        (arrivals : List ℕ) (k : ℕ) (mask : List Bool)
        → length mask ≡ length ps
        → All (λ i. i < length ps) arrivals
        → k < length ps
        → full (marks mask arrivals) ≡ false
        → full (marks mask (arrivals ++ k ∷ [])) ≡ true
        → run p (part mask) (chunks_at (offer ∷ sent) (arrivals ++ k ∷ []))
          ≡ deliver p format (reset_reassembly s) (joined ps)
    run-chunks [] k mask e a h f g =
        let size' : length (set mask k true) ≡ length ps = length-set mask k true ∙ e in
        let last = step mask k e h ∙ ap unanswered (commit-full (set mask k true) size' g) in
        ap (followed p []) last ∙ (λ i. (
          (deliver p format (reset_reassembly s) (joined ps)).0,
          append-nil (deliver p format (reset_reassembly s) (joined ps)).1 i,
        ))
    run-chunks (j ∷ arrivals) k mask e a h f g =
        let size' : length (set mask j true) ≡ length ps = length-set mask j true ∙ e in
        let first =
          step mask j e a.0
          ∙ ap unanswered
              (commit-open (set mask j true) size' (full-before (set mask j true) arrivals f)) in
        ap (followed p (chunks_at (offer ∷ sent) (arrivals ++ k ∷ []))) first
        ∙ run-chunks arrivals k (set mask j true) size' a.1 h f g
