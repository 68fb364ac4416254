-- ===== src/Host/Clipboard/Echo.antt =====
-- What the peer has sent is not sent back.
use wiredesk.Base.{
  ℕ, ◌-◌, ◌<◌, ◌≡◌, refl, ◌∙◌, Bool, true, false, not, ◌||◌, inl, inr, List, [], ◌∷◌, All, some,
  ltb, ◌==◌, ==_iff, length, Bool-cases, arith, if◌then◌else◌,
}
use wiredesk.Base.Bytes.{Bytes}
use wiredesk.Base.Utf8.{IsUtf8}
use wiredesk.Host.Clipboard.{LastKind, ClipboardSync, matches_text_hash}
use wiredesk.Host.Clipboard.Incoming.{Platform, commit_text, deliver}
use wiredesk.Host.Clipboard.Outgoing.{Local, poll}
use wiredesk.Host.Clipboard.Queue.{polls}
use wiredesk.Protocol.Message.{Message}

-- The clipboard behind the delivery of a text that the system took.
deliver-last :
    (p : Platform) (s : ClipboardSync) (t : Bytes)
    → IsUtf8 t
    → p.sets_text t ≡ true
    → (deliver p 0 s t).0 ≡ record s { last = LastKind.text (p.hash_bytes t) }
unfolding deliver commit_text
deliver-last p s t u h = rw (u, h) (stamped s.has_clip)
  where
    stamped :
        (clip : Bool)
        → record s { last = if not clip || true then LastKind.text (p.hash_bytes t) else s.last }
          ≡ record s { last = LastKind.text (p.hash_bytes t) }
    stamped true = refl
    stamped false = refl

-- A poll that finds the text which the clipboard was stamped with.
poll-quiet :
    (s : ClipboardSync) (l : Local) (t : Bytes) (now : ℕ)
    → 0 < length t
    → s.pending_outbox ≡ []
    → l.get_text ≡ some t
    → matches_text_hash s.last (l.hash_bytes t) ≡ true
    → ((poll l s now).1 ≡ [])
      × ((poll l s now).0.last ≡ s.last)
      × ((poll l s now).0.pending_outbox ≡ [])
unfolding poll
poll-quiet s l t now pos empty held same = elim (Bool-cases (ltb (now - s.last_poll) 500)) [
  | inl e ↦ rw (empty, e) (refl, refl, refl)
  | inr n ↦ elim (Bool-cases s.has_clip) [
    | inl c ↦ rw (empty, n, held, full, same, c) (refl, refl, refl)
    | inr c ↦ rw (empty, n, c) (refl, refl, refl)
  ]
]
  where
    full : (length t == 0) ≡ false
    full = ground arith

-- What a poll is told of the system: the text is still in the clipboard, under its hash.
abbrev pub Shows : Bytes → ℕ → Local × ℕ → Type 0
Shows t hash (l, now) = (l.get_text ≡ some t) × (l.hash_bytes t ≡ hash)

abbrev pub IsQuiet : List Message → Type 0
IsQuiet batch = batch ≡ []

polls-IsQuiet :
    (s : ClipboardSync) (t : Bytes) (hash : ℕ) (looks : List (Local × ℕ))
    → 0 < length t
    → s.pending_outbox ≡ []
    → s.last ≡ LastKind.text hash
    → All (Shows t hash) looks
    → All IsQuiet (polls s looks).1
polls-IsQuiet s t hash [] pos empty stamped shown = tt
polls-IsQuiet s t hash ((l, now) ∷ looks) pos empty stamped shown =
    let step =
      poll-quiet s l t now pos empty shown.0.0
        (rw (stamped, shown.0.1) ((==_iff hash hash).1 refl)) in
    (step.0, polls-IsQuiet (poll l s now).0 t hash looks pos step.2 (step.1 ∙ stamped) shown.1)

-- A text that came from the peer and that the system took is not sent back: with nothing else
-- queued, any number of polls directly behind the delivery, at any times, sends nothing as long as
-- the clipboard shows that text under the same hash. A message or the end of a session in between
-- is not covered: a `reset` forgets the text.
pub polls-deliver :
    (p : Platform) (s : ClipboardSync) (t : Bytes) (looks : List (Local × ℕ))
    → IsUtf8 t
    → 0 < length t
    → p.sets_text t ≡ true
    → s.pending_outbox ≡ []
    → All (Shows t (p.hash_bytes t)) looks
    → All IsQuiet (polls (deliver p 0 s t).0 looks).1
polls-deliver p s t looks u pos took empty shown = rw (deliver-last p s t u took) (
    polls-IsQuiet (record s { last = LastKind.text (p.hash_bytes t) }) t (p.hash_bytes t) looks pos
      empty refl shown)
