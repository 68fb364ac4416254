-- ===== src/Host/Flow/Tracked.antt =====
-- What the flow holds, against the tape of what was sent.
use wiredesk.Base.{
  ℕ, zero, suc, ◌+◌, ◌-◌, ◌%◌, ◌≤◌, ◌<◌, ◌≡◌, refl, sym, ap, ◌∙◌, subst, min, max, true, false, inl,
  inr, List, [], ◌∷◌, ◌++◌, append-nil, Option, none, some, ltb, ltb→lt, leb, ◌==◌, if◌then◌else◌,
  Bool-cases, leb→le, length, drop, replicate, length-append, length-replicate, arith,
}
use wiredesk.Host.Flow.{
  rx_progress_stall, ShellSlot, exec, pty, ShellFlow, exec_send, note_sent, drop_confirmed_exec,
  confirm, caught_up, on_report, sub_u64, sum_pending, release_since, release_if_stalled,
}
use wiredesk.Host.Flow.Tape.{
  Tape, execs, execs-append, execs-exec, execs-pty, drop-replicate, drop-append, drop-all,
}

-- The places rise, from beyond `low` on, up to `high` at most.
abbrev pub Rising : ℕ → ℕ → List (ℕ × ℕ) → Type 0
Rising low high [] = low ≤ high
Rising low high ((end, len) ∷ rest) = (low < end) × Rising end high rest

pub record Tracks (f : ShellFlow) (tape : Tape) : Type 0 where
  pub sent : f.sent ≡ length tape
  pub fits : length tape < 18446744073709551616
  pub rising : Rising f.acked f.sent f.exec_pending
  pub exact :
      (a : ℕ)
      → f.acked ≤ a
      → a < 18446744073709551616
      → sum_pending a (drop_confirmed_exec a f.exec_pending) ≡ execs (drop a tape)
  pub waits : f.unacked_since ≡ none → f.acked ≡ f.sent

pub Rising-le : (low high : ℕ) (p : List (ℕ × ℕ)) → Rising low high p → low ≤ high
Rising-le low high [] h = h
Rising-le low high ((end, len) ∷ rest) h = omega (arith, h.0, Rising-le end high rest h.1)

Rising-append :
    (low high end len : ℕ) (p : List (ℕ × ℕ))
    → Rising low high p
    → high < end
    → Rising low end (p ++ (end, len) ∷ [])
Rising-append low high end len [] h e = (omega arith, omega arith)
Rising-append low high end len ((e', l) ∷ rest) h e =
    (h.0, Rising-append e' high end len rest h.1 e)

Rising-mono :
    (low high high' : ℕ) (p : List (ℕ × ℕ)) → Rising low high p → high ≤ high' → Rising low high' p
Rising-mono low high high' [] h e = omega arith
Rising-mono low high high' ((end, len) ∷ rest) h e = (h.0, Rising-mono end high high' rest h.1 e)

-- Dropping the confirmed front keeps the order, from the confirmed count on.
Rising-drop :
    (low high acked : ℕ) (p : List (ℕ × ℕ))
    → Rising low high p
    → low ≤ acked
    → acked ≤ high
    → Rising acked high (drop_confirmed_exec acked p)
unfolding drop_confirmed_exec
Rising-drop low high acked [] h e k = k
Rising-drop low high acked ((end, len) ∷ rest) h e k = elim (Bool-cases (leb end acked)) [
  | inl t ↦ rw t (Rising-drop end high acked rest h.1 (leb→le _ _ t) k)
  | inr n ↦ rw n (ground arith, h.1)
]

-- Nothing is dropped where nothing is confirmed.
pub drop-Rising :
    (low high : ℕ) (p : List (ℕ × ℕ)) → Rising low high p → drop_confirmed_exec low p ≡ p
unfolding drop_confirmed_exec
drop-Rising low high [] h = refl
drop-Rising low high ((end, len) ∷ rest) h = ground arith

drop-twice :
    (a b : ℕ) (p : List (ℕ × ℕ))
    → a ≤ b
    → drop_confirmed_exec b (drop_confirmed_exec a p) ≡ drop_confirmed_exec b p
unfolding drop_confirmed_exec
drop-twice a b [] h = refl
drop-twice a b ((end, len) ∷ rest) h = ground (arith, drop-twice a b rest h)

sum-append :
    (a end len : ℕ) (p : List (ℕ × ℕ))
    → sum_pending a (p ++ (end, len) ∷ []) ≡ sum_pending a p + min len (sub_u64 end a)
sum-append a end len [] = omega arith
sum-append a end len ((e, l) ∷ rest) = omega (arith, sum-append a end len rest)

-- A place behind the others counts with the part that lies past `a`.
sum-drop-append :
    (a low high end len : ℕ) (p : List (ℕ × ℕ))
    → Rising low high p
    → high < end
    → sum_pending a (drop_confirmed_exec a (p ++ (end, len) ∷ []))
      ≡ sum_pending a (drop_confirmed_exec a p) + min len (end - a)
unfolding drop_confirmed_exec
sum-drop-append a low high end len [] h k = ground arith
sum-drop-append a low high end len ((e, l) ∷ rest) h k = elim (Bool-cases (leb e a)) [
  | inl t ↦ rw t (sum-drop-append a e high end len rest h.1 k)
  | inr n ↦ rw n (ground (arith, sum-append a end len rest, Rising-le e high rest h.1))
]

-- What a send adds to the exec bytes past `a`.
execs-sent :
    (a n : ℕ) (tape : Tape)
    → (execs (drop a (tape ++ replicate n exec)) ≡ execs (drop a tape) + (n - (a - length tape)))
      × (execs (drop a (tape ++ replicate n pty)) ≡ execs (drop a tape))
execs-sent a n tape = (
  past exec ∙ omega (arith, execs-exec (n - (a - length tape))),
  past pty ∙ omega (arith, execs-pty (n - (a - length tape))),
)
  where
    past :
        (slot : ShellSlot)
        → execs (drop a (tape ++ replicate n slot))
          ≡ execs (drop a tape) + execs (replicate (n - (a - length tape)) slot)
    past slot =
        ap execs (drop-append a tape (replicate n slot))
        ∙ execs-append (drop a tape) (drop (a - length tape) (replicate n slot))
        ∙ ap (λ t. execs (drop a tape) + execs t) (drop-replicate (a - length tape) n slot)

sent-size :
    (tape : Tape) (n : ℕ) (slot : ShellSlot) → length (tape ++ replicate n slot) ≡ length tape + n
sent-size tape n slot =
    omega (arith, length-append tape (replicate n slot), length-replicate n slot)

abbrev sent_more : ShellFlow → ShellSlot → ℕ → ℕ → ShellFlow
sent_more f slot n now = record f {
  sent = f.sent + n;
  exec_pending = f.exec_pending ++ exec_send slot (f.sent + n) n;
  unacked_since = if f.sent == f.acked then some now else f.unacked_since;
}

note_sent-more :
    (f : ShellFlow) (slot : ShellSlot) (n now : ℕ)
    → f.sent + suc n < 18446744073709551616
    → note_sent f slot (suc n) now ≡ sent_more f slot (suc n) now
unfolding note_sent
note_sent-more f slot n now h =
    let end : (f.sent + suc n) % 18446744073709551616 ≡ f.sent + suc n = omega arith in
    let positive : (suc n == 0) ≡ false = ground arith in rw (positive, end) refl

more-waits :
    (sent acked n now : ℕ) (since : Option ℕ)
    → (since ≡ none → acked ≡ sent)
    → (if sent == acked then some now else since) ≡ none
    → acked ≡ sent + suc n
more-waits sent acked n now none w e = ground (arith, w refl)
more-waits sent acked n now (some since) w e = ground arith

more-Tracks :
    (f : ShellFlow) (tape : Tape) (slot : ShellSlot) (n now : ℕ)
    → Tracks f tape
    → length tape + suc n < 18446744073709551616
    → Tracks (sent_more f slot (suc n) now) (tape ++ replicate (suc n) slot)
more-Tracks f tape exec n now t h = record {
  sent = omega (arith, t.sent, sent-size tape (suc n) exec);
  fits = omega (arith, sent-size tape (suc n) exec);
  rising =
      Rising-append f.acked f.sent (f.sent + suc n) (suc n) f.exec_pending t.rising (omega arith);
  exact = λ a low word.
      sum-drop-append a f.acked f.sent (f.sent + suc n) (suc n) f.exec_pending t.rising
        (omega arith)
      ∙ omega (arith, t.exact a low word, t.sent, (execs-sent a (suc n) tape).0);
  waits = more-waits f.sent f.acked n now f.unacked_since t.waits;
}
more-Tracks f tape pty n now t h = record {
  sent = omega (arith, t.sent, sent-size tape (suc n) pty);
  fits = omega (arith, sent-size tape (suc n) pty);
  rising =
      subst (Rising f.acked (f.sent + suc n)) (sym (append-nil f.exec_pending))
        (Rising-mono f.acked f.sent (f.sent + suc n) f.exec_pending t.rising (omega arith));
  exact = λ a low word.
      ap (λ p. sum_pending a (drop_confirmed_exec a p)) (append-nil f.exec_pending)
      ∙ t.exact a low word
      ∙ sym (execs-sent a (suc n) tape).1;
  waits = more-waits f.sent f.acked n now f.unacked_since t.waits;
}

-- A send of `n` bytes that the counter can hold puts `n` bytes on the tape.
pub note_sent-Tracks :
    (f : ShellFlow) (tape : Tape) (slot : ShellSlot) (n now : ℕ)
    → Tracks f tape
    → length tape + n < 18446744073709551616
    → Tracks (note_sent f slot n now) (tape ++ replicate n slot)
unfolding note_sent
note_sent-Tracks f tape slot zero now t h = subst (Tracks f) (sym (append-nil tape)) t
note_sent-Tracks f tape slot (suc n) now t h =
    subst (λ g. Tracks g (tape ++ replicate (suc n) slot))
      (sym (note_sent-more f slot n now (omega (arith, t.sent))))
      (more-Tracks f tape slot n now t h)

caught-waits :
    (acked sent : ℕ) (since : Option ℕ)
    → (since ≡ none → acked ≡ sent)
    → (if acked == sent then none else since) ≡ none
    → acked ≡ sent
caught-waits acked sent none w e = w refl
caught-waits acked sent (some since) w e = ground arith

confirm-Tracks :
    (f : ShellFlow) (tape : Tape) (confirmed now : ℕ)
    → Tracks f tape
    → confirmed ≤ f.sent
    → Tracks (caught_up (confirm f confirmed now)) tape
unfolding confirm caught_up
confirm-Tracks f tape confirmed now t h = elim (Bool-cases (ltb f.acked confirmed)) [
  | inl more ↦ rw more (record {
    sent = t.sent;
    fits = t.fits;
    rising = Rising-drop f.acked f.sent confirmed f.exec_pending t.rising (ground arith) h;
    exact = λ a low word.
        ap (sum_pending a) (drop-twice confirmed a f.exec_pending low)
        ∙ t.exact a (ground arith) word;
    waits =
        caught-waits confirmed f.sent f.unacked_since
          (λ k. absurd (omega (arith, t.waits k, ltb→lt _ _ more)));
  })
  | inr same ↦ rw same (record {
    sent = t.sent;
    fits = t.fits;
    rising = t.rising;
    exact = t.exact;
    waits = caught-waits f.acked f.sent f.unacked_since t.waits;
  })
]

-- A report of any count, also one beyond what was sent.
pub on_report-Tracks :
    (f : ShellFlow) (tape : Tape) (bytes now : ℕ)
    → Tracks f tape
    → Tracks (on_report f bytes now).0 tape
unfolding on_report
on_report-Tracks f tape bytes now t =
    confirm-Tracks (record f { peer_reports = true }) tape (min bytes f.sent) now
      (record { sent = t.sent; fits = t.fits; rising = t.rising; exact = t.exact; waits = t.waits })
      (omega arith)

-- Giving up counts all as confirmed.
pub release-Tracks :
    (f : ShellFlow) (tape : Tape) (now : ℕ)
    → Tracks f tape
    → Tracks (release_if_stalled f now).0 tape
unfolding release_if_stalled drop_confirmed_exec
release-Tracks f tape now t = released f.unacked_since
  where
    gone :
        Tracks
          (record f { acked = f.sent; exec_pending = []; unacked_since = none; stalled = true })
          tape
    gone = record {
      sent = t.sent;
      fits = t.fits;
      rising = omega arith;
      exact = λ a low word. sym (ap execs (drop-all a tape (omega (arith, t.sent))));
      waits = λ e. refl;
    }

    released : (since : Option ℕ) → Tracks (release_since f now since).0 tape
    released none = t
    released (some since) =
        elim (Bool-cases (ltb (now - max since f.last_progress) rx_progress_stall)) [
          | inl young ↦ rw young t
          | inr old ↦ rw old gone
        ]
