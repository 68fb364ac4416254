-- ===== src/Protocol/Message/Sound.antt =====
-- What `deserialize` accepts: a message of the asked type, with every field within its type.
use wiredesk.Base.{
  ℕ, ◌+◌, ◌<◌, ◌≡◌, refl, sym, subst, not, inl, inr, [], ◌∷◌, ltb, ◌==◌, Bool-cases, take, drop,
  length, All-take, All-drop,
}
use wiredesk.Base.Bytes.{Bytes, IsByte, AreBytes, get_or-IsByte, word_at-lt, from_le}
use wiredesk.Base.Int.{of_word-Fits}
use wiredesk.Base.Result.{
  ok, ◌>>=◌, ◌>>◌, Ensures, Ensures->>=, Ensures->>, Ensures-ok, Result-cases,
}
use wiredesk.Base.Utf8.{from_utf8, from_utf8-ok}
use wiredesk.Protocol.Message.{Message, MessageType, msg_type}
use wiredesk.Protocol.Message.Deserialize.{
  deserialize, read_string, read_string_with_rest, read_shell, read_browser, read_pty_resize,
  bad_browser_frame, u32_at, byte_at, u64_at, ensure_min_len,
}
use wiredesk.Protocol.Message.Ranges.{
  IsMessage, IsText, IsBrowserFrame, IsBrowserFrame-bad_browser_frame,
}
use wiredesk.Protocol.Message.Strings.{checked}

-- A browser frame is also one that the protocol defines.
abbrev pub IsAccepted : Message → Type 0
IsAccepted (Message.browser stream kind offset bytes) = IsBrowserFrame stream kind offset bytes
IsAccepted _ = Unit

abbrev pub Answers : MessageType → Message → Type 0
Answers t m = (msg_type m ≡ t) × IsMessage m × IsAccepted m

checked-IsText : (s : Bytes) → AreBytes s → Ensures IsText (checked s)
checked-IsText s h = elim (Result-cases (from_utf8 s)) [
  | inl (t, e) ↦
      let same : t ≡ s = from_utf8-ok s e in
      rw e (subst AreBytes (sym same) h, subst (λ u. from_utf8 u ≡ ok t) (sym same) e)
  | inr (e', e) ↦ rw e tt
]

read_string-IsText : (p : Bytes) → AreBytes p → Ensures IsText (read_string p)
unfolding read_string
read_string-IsText [] h = tt
read_string-IsText (len ∷ rest) h = elim (Bool-cases (ltb (length (len ∷ rest)) (1 + len))) [
  | inl short ↦ rw short tt
  | inr long ↦ rw long (checked-IsText (take len rest) (All-take IsByte len rest h.1))
]

abbrev IsTextWithRest : Bytes × Bytes → Type 0
IsTextWithRest (s, rest) = IsText s × AreBytes rest

read_string_with_rest-IsText :
    (p : Bytes) → AreBytes p → Ensures IsTextWithRest (read_string_with_rest p)
unfolding read_string_with_rest
read_string_with_rest-IsText [] h = tt
read_string_with_rest-IsText (len ∷ rest) h =
    elim (Bool-cases (ltb (length (len ∷ rest)) (1 + len))) [
      | inl short ↦ rw short tt
      | inr long ↦ rw long (
          Ensures->>= IsText IsTextWithRest (checked (take len rest)) _
            (checked-IsText (take len rest) (All-take IsByte len rest h.1))
            (λ s t. (t, All-drop IsByte len rest h.1)))
    ]

read_shell-IsText : (p : Bytes) → AreBytes p → Ensures IsText (read_shell p)
unfolding read_shell
read_shell-IsText [] h = (tt, unfold from_utf8 in refl)
read_shell-IsText (b ∷ p) h = read_string-IsText (b ∷ p) h

read_browser-Answers :
    (p : Bytes) → AreBytes p → Ensures (Answers MessageType.browser) (read_browser p)
unfolding read_browser msg_type
read_browser-Answers p h =
    elim (Bool-cases (bad_browser_frame (u32_at p 0) (byte_at p 4) (u64_at p 5) (drop 13 p))) [
      | inl bad ↦ rw bad tt
      | inr good ↦ rw good (
        refl,
        (word_at-lt 4 0 p h, get_or-IsByte p 4 h, word_at-lt 8 5 p h, All-drop IsByte 13 p h),
        IsBrowserFrame-bad_browser_frame _ _ _ (drop 13 p) good,
      )
    ]

read_pty_resize-Answers :
    (p : Bytes) → AreBytes p → Ensures (Answers MessageType.pty_resize) (read_pty_resize p)
unfolding read_pty_resize msg_type
read_pty_resize-Answers p h = elim (Bool-cases (not (length p == 4))) [
  | inl bad ↦ rw bad tt
  | inr good ↦ rw good (refl, (word_at-lt 2 0 p h, word_at-lt 2 2 p h), tt)
]

module _ (p : Bytes) (h : AreBytes p) where
  byte : (i : ℕ) → byte_at p i < 256
  byte i = get_or-IsByte p i h

  u16 : (i : ℕ) → from_le (take 2 (drop i p)) < 65536
  u16 i = word_at-lt 2 i p h

  -- The arms that read fields at fixed places, behind one length check.
  fixed :
      {t : MessageType} (n : ℕ) (m : Message)
      → Answers t m
      → Ensures (Answers t) (ensure_min_len p n >> ok m)
  fixed {t} n m a = Ensures->> (Answers t) (ensure_min_len p n) (ok m) a

  -- The arms that read a text up to the end of the payload.
  text :
      (t : MessageType) (n i : ℕ) (f : Bytes → Message)
      → ((s : Bytes) → IsText s → Answers t (f s))
      → Ensures (Answers t) (ensure_min_len p n >> (read_string (drop i p) >>= λ s. ok (f s)))
  text t n i f a = Ensures->> _ (ensure_min_len p n) _ (
      Ensures->>= IsText _ (read_string (drop i p)) _
        (read_string-IsText (drop i p) (All-drop IsByte i p h)) a)

  deserialize-Answers : (t : MessageType) → Ensures (Answers t) (deserialize t p)
  unfolding deserialize msg_type
  deserialize-Answers MessageType.hello = text _ 2 1 _ (λ s t. (refl, (byte 0, t), tt))
  deserialize-Answers MessageType.hello_ack = Ensures->> _ (ensure_min_len p 6) _ (
      Ensures->>= IsTextWithRest _ (read_string_with_rest (drop 1 p)) _
        (read_string_with_rest-IsText (drop 1 p) (All-drop IsByte 1 p h))
        (λ sr t.
          Ensures->> _ (ensure_min_len sr.1 4) _
            (refl, (byte 0, t.0, word_at-lt 2 0 sr.1 t.1, word_at-lt 2 2 sr.1 t.1), tt)))
  deserialize-Answers MessageType.mouse_move = fixed 4 _ (refl, (u16 0, u16 2), tt)
  deserialize-Answers MessageType.mouse_button = fixed 2 _ (refl, (byte 0, tt), tt)
  deserialize-Answers MessageType.mouse_scroll =
      fixed 4 _ (refl, (of_word-Fits 0x8000 _ (u16 0), of_word-Fits 0x8000 _ (u16 2)), tt)
  deserialize-Answers MessageType.key_down = fixed 3 _ (refl, (u16 0, byte 2), tt)
  deserialize-Answers MessageType.key_up = fixed 3 _ (refl, (u16 0, byte 2), tt)
  deserialize-Answers MessageType.clip_offer = fixed 5 _ (refl, (byte 0, word_at-lt 4 1 p h), tt)
  deserialize-Answers MessageType.clip_chunk = fixed 2 _ (refl, (u16 0, All-drop IsByte 2 p h), tt)
  deserialize-Answers MessageType.clip_ack = fixed 2 _ (refl, u16 0, tt)
  deserialize-Answers MessageType.clip_decline = fixed 1 _ (refl, byte 0, tt)
  deserialize-Answers MessageType.heartbeat = (refl, tt, tt)
  deserialize-Answers MessageType.disconnect = (refl, tt, tt)
  deserialize-Answers MessageType.error = text _ 3 2 _ (λ s t. (refl, (u16 0, t), tt))
  deserialize-Answers MessageType.shell_open =
      Ensures->>= IsText _ (read_shell p) _ (read_shell-IsText p h) (λ s t. (refl, t, tt))
  deserialize-Answers MessageType.shell_input = (refl, h, tt)
  deserialize-Answers MessageType.shell_output = (refl, h, tt)
  deserialize-Answers MessageType.shell_close = (refl, tt, tt)
  deserialize-Answers MessageType.shell_closed = (refl, tt, tt)
  deserialize-Answers MessageType.shell_exit =
      fixed 4 _ (refl, of_word-Fits 0x8000_0000 _ (word_at-lt 4 0 p h), tt)
  deserialize-Answers MessageType.shell_open_pty =
      text _ 4 4 _ (λ s t. (refl, (t, u16 0, u16 2), tt))
  deserialize-Answers MessageType.pty_open = text _ 4 4 _ (λ s t. (refl, (t, u16 0, u16 2), tt))
  deserialize-Answers MessageType.pty_input = (refl, h, tt)
  deserialize-Answers MessageType.pty_output = (refl, h, tt)
  deserialize-Answers MessageType.pty_close = (refl, tt, tt)
  deserialize-Answers MessageType.pty_exit =
      fixed 4 _ (refl, of_word-Fits 0x8000_0000 _ (word_at-lt 4 0 p h), tt)
  deserialize-Answers MessageType.pty_resize = read_pty_resize-Answers p h
  deserialize-Answers MessageType.rx_progress = fixed 8 _ (refl, word_at-lt 8 0 p h, tt)
  deserialize-Answers MessageType.browser =
      Ensures->> _ (ensure_min_len p 13) _ (read_browser-Answers p h)

-- From whatever bytes the peer sends: a payload that `deserialize` accepts gives a message of the
-- type that was asked for, each field within its type, each text valid UTF-8, and a browser frame
-- is one that the protocol defines.
pub deserialize_sound :
    (t : MessageType) (p : Bytes) {m : Message} → AreBytes p → deserialize t p ≡ ok m → Answers t m
deserialize_sound t p h e = Ensures-ok (Answers t) (deserialize t p) (deserialize-Answers p h t) e
