-- ===== src/Host/Clipboard/Queue.antt =====
-- The outbox over many polls.
use wiredesk.Base.{
  ℕ, zero, suc, ◌+◌, ◌*◌, ◌-◌, ◌%◌, ◌≤◌, ◌<◌, ◌≡◌, refl, sym, ap, ◌∙◌, subst, true, false, List, [],
  ◌∷◌, ◌++◌, some, le→ltb, ◌==◌, length, take, drop, All, length-append, length-take, length-drop,
  take-append-drop, arith,
}
use wiredesk.Base.Bytes.{Bytes}
use wiredesk.Base.Chunks.{chunks, joined, joined-chunks}
use wiredesk.Protocol.Message.{Message}
use wiredesk.Host.Clipboard.{
  chunk_size, text, matches_text_hash, numbered, build_offer_and_chunks, ClipboardSync, is_empty,
}
use wiredesk.Host.Clipboard.Outgoing.{
  Local, Polled, chunk_len, data_len, drain_outbox, start_transfer, poll,
}

-- Polls one after the other, each with what the system would say and the time: the state behind
-- them, and what each returned.
abbrev pub polls : ClipboardSync → List (Local × ℕ) → ClipboardSync × List (List Message)
polls s [] = (s, [])
polls s ((l, now) ∷ rest) =
    let step = poll l s now in let later = polls step.0 rest in (later.0, step.1 ∷ later.1)

data_len-take :
    (n : ℕ) (ms : List Message) → data_len (take n ms) + data_len (drop n ms) ≡ data_len ms
data_len-take zero ms = omega arith
data_len-take (suc n) [] = omega arith
data_len-take (suc n) (m ∷ ms) = omega (arith, data_len-take n ms)

length-nil {ℓ} : {A : Type ℓ} (xs : List A) → length xs ≤ 0 → xs ≡ []
length-nil [] h = refl
length-nil (x ∷ xs) h = absurd (omega arith)

is_empty-false : (ms : List Message) → 0 < length ms → is_empty ms ≡ false
is_empty-false [] h = absurd (omega arith)
is_empty-false (m ∷ ms) h = refl

-- A poll with a full outbox does not look at the clipboard.
pub poll-drain :
    (l : Local) (s : ClipboardSync) (now : ℕ)
    → 0 < length s.pending_outbox
    → poll l s now ≡ drain_outbox s
unfolding poll
poll-drain l s now h = rw (is_empty-false s.pending_outbox h) refl

-- The state once the outbox is sent.
abbrev pub sent_all : ClipboardSync → ClipboardSync
sent_all s = record s {
  pending_outbox = [];
  outgoing_progress = s.outgoing_progress + data_len s.pending_outbox;
}

-- Polls that are as many as the outbox has batches of eight messages send all of it, in its order
-- and in batches of at most eight, whatever the system's clipboard says meanwhile; then it is empty
-- and the progress has grown by the bytes of its chunks. The counter must be able to hold them.
pub polls-drain :
    (s : ClipboardSync) (looks : List (Local × ℕ))
    → 8 * length looks < length s.pending_outbox + 8
    → length s.pending_outbox ≤ 8 * length looks
    → s.outgoing_progress + data_len s.pending_outbox < 18446744073709551616
    → ((polls s looks).0 ≡ sent_all s)
      × (joined (polls s looks).1 ≡ s.pending_outbox)
      × All (λ batch. length batch ≤ 8) (polls s looks).1
unfolding drain_outbox
polls-drain s [] h k w =
    let empty = length-nil s.pending_outbox k in
    (
      (λ i. record s {
        pending_outbox = empty i;
        outgoing_progress = none_sent s.pending_outbox empty s.outgoing_progress i;
      }),
      sym empty,
      tt,
    )
  where
    none_sent : (ms : List Message) → ms ≡ [] → (n : ℕ) → n ≡ n + data_len ms
    none_sent ms e n = omega (arith, ap data_len e)
polls-drain s ((l, now) ∷ looks) h k w =
    let ms = s.pending_outbox in
    let parts = data_len-take 8 ms in
    let left = length-drop 8 ms in
    let ih =
      polls-drain (drain_outbox s).0 looks (omega (arith, left)) (omega (arith, left))
        (omega (arith, parts)) in
    let grown : (s.outgoing_progress + data_len (take 8 ms)) % 18446744073709551616
          + data_len (drop 8 ms)
        ≡ s.outgoing_progress + data_len ms =
      omega (arith, parts) in
    rw (poll-drain l s now (omega arith)) (
      ih.0 ∙ (λ i. record s { pending_outbox = []; outgoing_progress = grown i }),
      ap (λ (t : List Message). take 8 ms ++ t) ih.1 ∙ take-append-drop 8 ms,
      (omega (arith, length-take 8 ms), ih.2),
    )

data_len-numbered : (i : ℕ) (ps : List Bytes) → data_len (numbered i ps) ≡ length (joined ps)
unfolding chunk_len
data_len-numbered i [] = refl
data_len-numbered i (p ∷ ps) =
    omega (arith, data_len-numbered (suc i) ps, length-append p (joined ps))

-- A transfer puts as many bytes into its chunks as its payload has.
pub data_len-build_offer_and_chunks :
    (format : ℕ) (payload : Bytes)
    → data_len (build_offer_and_chunks format payload) ≡ length payload
unfolding build_offer_and_chunks chunk_len
data_len-build_offer_and_chunks format payload =
    let whole = joined-chunks (length payload) chunk_size payload (omega arith) (omega arith) in
    omega (arith, data_len-numbered 0 (chunks (length payload) chunk_size payload), ap length whole)

-- The same once its messages are queued.
abbrev queued : ClipboardSync → Local → Bytes → ℕ → ClipboardSync
queued s l t now = record s {
  last_poll = now;
  last = text (l.hash_bytes t);
  outgoing_total = length t;
  outgoing_progress = 0;
  pending_outbox = build_offer_and_chunks 0 t;
}

poll-queued :
    (s : ClipboardSync) (l : Local) (t : Bytes) (now : ℕ)
    → s.pending_outbox ≡ []
    → s.last_poll + 500 ≤ now
    → s.has_clip ≡ true
    → l.get_text ≡ some t
    → 0 < length t
    → length t ≤ 262144
    → matches_text_hash s.last (l.hash_bytes t) ≡ false
    → poll l s now ≡ drain_outbox (queued s l t now)
unfolding poll start_transfer drain_outbox
poll-queued s l t now empty late clip seen some_text fits fresh =
    let nonempty : (length t == 0) ≡ false = ground arith in
    rw
      (
        empty,
        le→ltb (now - s.last_poll) 500 (omega arith),
        clip,
        seen,
        nonempty,
        fresh,
        le→ltb 262144 (length t) fits,
      )
      refl

-- What a poll did, and the polls behind it.
abbrev followed : List (Local × ℕ) → Polled → ClipboardSync × List (List Message)
followed looks step = let later = polls step.0 looks in (later.0, step.1 ∷ later.1)

-- What the clipboard is once a new text is sent.
abbrev pub sent_text : ClipboardSync → Local → Bytes → ℕ → ClipboardSync
sent_text s l t now = record s {
  last_poll = now;
  last = text (l.hash_bytes t);
  outgoing_total = length t;
  outgoing_progress = length t;
  pending_outbox = [];
}

-- A text of the host's clipboard that is not empty, at most 256 KB long, and under another hash
-- than the text that was last sent or received, is sent whole, where the system has a clipboard and
-- nothing is queued: from a poll half a second or more after the last one on, polls that are as
-- many as the transfer has batches of eight messages return its offer and its chunks, in their
-- order and in batches of at most eight, whatever the clipboard turns to meanwhile. Then the outbox
-- is empty, and the progress is the total.
pub polls-build_offer_and_chunks :
    (s : ClipboardSync) (l : Local) (t : Bytes) (now : ℕ) (looks : List (Local × ℕ))
    → s.pending_outbox ≡ []
    → s.last_poll + 500 ≤ now
    → s.has_clip ≡ true
    → l.get_text ≡ some t
    → 0 < length t
    → length t ≤ 262144
    → matches_text_hash s.last (l.hash_bytes t) ≡ false
    → 8 * length looks < length (build_offer_and_chunks 0 t)
    → length (build_offer_and_chunks 0 t) ≤ 8 * length looks + 8
    → ((polls s ((l, now) ∷ looks)).0 ≡ sent_text s l t now)
      × (joined (polls s ((l, now) ∷ looks)).1 ≡ build_offer_and_chunks 0 t)
      × All (λ batch. length batch ≤ 8) (polls s ((l, now) ∷ looks)).1
polls-build_offer_and_chunks s l t now looks empty late clip seen some_text fits fresh h k =
    let started = queued s l t now in
    let bytes = data_len-build_offer_and_chunks 0 t in
    let all =
      polls-drain started ((l, now) ∷ looks) (omega arith) (omega arith) (omega (arith, bytes)) in
    let same : polls s ((l, now) ∷ looks) ≡ polls started ((l, now) ∷ looks) = ap (followed looks) (
      poll-queued s l t now empty late clip seen some_text fits fresh
      ∙ sym (poll-drain l started now (omega arith))) in
    let counted : 0 + data_len (build_offer_and_chunks 0 t) ≡ length t = omega (arith, bytes) in
    subst
      (λ (r : ClipboardSync × List (List Message)).
        (r.0 ≡ sent_text s l t now)
        × (joined r.1 ≡ build_offer_and_chunks 0 t)
        × All (λ batch. length batch ≤ 8) r.1)
      (sym same)
      (all.0 ∙ (λ i. record (sent_text s l t now) { outgoing_progress = counted i }), all.1, all.2)
