-- ===== src/Host/Flow/Live.antt =====
-- What the budgets make of the flow.
use wiredesk.Base.{
  ℕ, ◌+◌, ◌-◌, ◌≤◌, ◌<◌, ◌≡◌, refl, sym, ap, ◌∙◌, max, Bool, true, false, ◌&&◌, inl, inr, [], ◌++◌,
  Option, none, some, le→ltb, Bool-cases, length, drop, replicate, arith,
}
use wiredesk.Host.Flow.{
  ShellSlot, ShellFlow, new, note_sent, drop_confirmed_exec, on_report, sum_pending, exec_in_flight,
  pacing, is_open, release_since, release_if_stalled, exec_pump_budget, exec_budget_at,
  rx_progress_stall,
}
use wiredesk.Host.Flow.Tape.{Tape, execs, drop-all}
use wiredesk.Host.Flow.Tracked.{
  Tracks, drop-Rising, Rising-le, note_sent-Tracks, on_report-Tracks, release-Tracks,
}

-- What happens to the flow of one connection: sends, reports and looks at the clock. The tape is
-- what has been sent.
pub data Reach (start : ℕ) : ShellFlow → Tape → Type 0 where
  here : Reach start (new start) []
  sent :
      {f : ShellFlow} {tape : Tape} (slot : ShellSlot) (n now : ℕ)
      → length tape + n < 18446744073709551616
      → Reach start f tape
      → Reach start (note_sent f slot n now) (tape ++ replicate n slot)
  reported :
      {f : ShellFlow} {tape : Tape} (bytes now : ℕ)
      → Reach start f tape
      → Reach start (on_report f bytes now).0 tape
  looked :
      {f : ShellFlow} {tape : Tape} (now : ℕ)
      → Reach start f tape
      → Reach start (release_if_stalled f now).0 tape

pub Reach-Tracks : {start : ℕ} {f : ShellFlow} {tape : Tape} → Reach start f tape → Tracks f tape
unfolding drop_confirmed_exec
Reach-Tracks here = record {
  sent = refl;
  fits = omega arith;
  rising = omega arith;
  exact = λ a low word. sym (ap execs (drop-all a [] (omega arith)));
  waits = λ e. refl;
}
Reach-Tracks (sent {f} {tape} slot n now h r) =
    note_sent-Tracks f tape slot n now (Reach-Tracks r) h
Reach-Tracks (reported {f} {tape} bytes now r) = on_report-Tracks f tape bytes now (Reach-Tracks r)
Reach-Tracks (looked {f} {tape} now r) = release-Tracks f tape now (Reach-Tracks r)

-- Whatever sends, reports and looks at the clock there were, in any order and with any counts in the
-- reports, `exec_in_flight` is the number of exec bytes on the tape behind the confirmed ones, and
-- no more bytes are confirmed than were sent.
pub exec_in_flight-execs :
    {start : ℕ} {f : ShellFlow} {tape : Tape}
    → Reach start f tape
    → (exec_in_flight f ≡ execs (drop f.acked tape))
      × (f.acked ≤ length tape)
      × (f.sent ≡ length tape)
unfolding exec_in_flight
exec_in_flight-execs {start} {f} r =
    let t = Reach-Tracks r in
    (
      ap (sum_pending f.acked) (sym (drop-Rising f.acked f.sent f.exec_pending t.rising))
          ∙ t.exact f.acked (omega arith) (omega (arith, t.fits, t.sent, bound t)),
      omega (arith, t.sent, bound t),
      t.sent,
    )
  where
    bound : {g : ShellFlow} {tape : Tape} → Tracks g tape → g.acked ≤ g.sent
    bound {g} t = Rising-le g.acked g.sent g.exec_pending t.rising

-- Since when the session waits for the client: since a byte is out or the last progress, whichever
-- is later.
abbrev pub waiting_since : ShellFlow → Option ℕ → ℕ
waiting_since f none = 0
waiting_since f (some since) = max since f.last_progress

unpaced : (b : Bool) → (b && false) ≡ true → ⊥
unpaced true e = cc
unpaced false e = cc

exec_pump_budget-pos : (quiet_for : Option ℕ) → 0 < exec_pump_budget quiet_for
unfolding exec_pump_budget
exec_pump_budget-pos none = omega arith
exec_pump_budget-pos (some quiet) = ground arith

-- Only bytes that are in flight, on a flow that is paced, take the budget.
budget-pos :
    (f : ShellFlow) (quiet_for : Option ℕ) (buffers : Bool)
    → (pacing f ≡ true → exec_in_flight f ≡ 0)
    → 0 < exec_budget_at f quiet_for buffers
unfolding exec_budget_at
budget-pos f quiet_for buffers h = elim (Bool-cases (is_open quiet_for && pacing f && buffers)) [
  | inl t ↦ rw (t, h (paced (is_open quiet_for) (pacing f) t)) (omega arith)
  | inr n ↦ rw n (exec_pump_budget-pos quiet_for)
]
  where
    paced : (o p : Bool) → (o && p && buffers) ≡ true → p ≡ true
    paced true true e = refl
    paced true false e = cc
    paced false p e = cc

-- The exec slot is never held back for good: once a second has gone by since the flow waits, exec
-- may send at the next pump, whatever the pty does and whether or not the link buffers.
pub exec_budget_at-pos :
    {start : ℕ} {f : ShellFlow} {tape : Tape} (now : ℕ) (quiet_for : Option ℕ) (buffers : Bool)
    → Reach start f tape
    → waiting_since f f.unacked_since + 1000 ≤ now
    → 0 < exec_budget_at (release_if_stalled f now).0 quiet_for buffers
unfolding release_if_stalled pacing
exec_budget_at-pos {start} {f} {tape} now quiet_for buffers r h = go f.unacked_since refl h
  where
    idle : f.acked ≡ f.sent → exec_in_flight f ≡ 0
    idle e =
        (exec_in_flight-execs r).0
        ∙ ap execs (drop-all f.acked tape (omega (arith, (exec_in_flight-execs r).2)))

    go :
        (since : Option ℕ)
        → f.unacked_since ≡ since
        → waiting_since f since + 1000 ≤ now
        → 0 < exec_budget_at (release_since f now since).0 quiet_for buffers
    go none e h = budget-pos f quiet_for buffers (λ _. idle ((Reach-Tracks r).waits e))
    go (some since) e h =
        rw (le→ltb (now - max since f.last_progress) rx_progress_stall (omega arith))
          (budget-pos _ quiet_for buffers (λ p. absurd (unpaced f.peer_reports p)))
