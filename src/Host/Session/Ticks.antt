-- ===== src/Host/Session/Ticks.antt =====
-- The slots of a session over whole ticks.
use wiredesk.Base.{
  ℕ, ◌+◌, ◌-◌, ◌≡◌, refl, Bool, true, false, not, ◌&&◌, ◌||◌, inl, inr, List, [], ◌∷◌, Option, none,
  some, leb, ◌==◌, if◌then◌else◌, Bool-cases, length,
}
use wiredesk.Base.Bytes.{Bytes}
use wiredesk.Base.Int.{ℤ}
use wiredesk.Protocol.Message.{Message}
use wiredesk.Host.Flow.{ShellSlot, exec, pty, note_sent, release_if_stalled}
use wiredesk.Host.Clipboard.Outgoing.{Polled, poll}
use wiredesk.Host.Session.{Session, Machine, done, and_then, send, is_some}
use wiredesk.Host.Session.Handler.{handle_packet, heartbeat_timeout, is_connected, beat}
use wiredesk.Host.Session.Pump.{
  ShellEvent, gather, output_message, exit_message, ship, split_shell_output, clear, report_exit,
  or_exited, mark_use, proc_of, speaks_legacy, budget_of, deliver_output, pump_slot,
}
use wiredesk.Host.Session.Slots.{
  IsSession, disconnect-IsSession, and_then-IsSession, send-IsSession,
}
use wiredesk.Host.Session.Closing.{touched-IsSession}
use wiredesk.Host.Session.Reachable.{handle_packet-IsSession}
use wiredesk.Host.Session.Tick.{
  Found, pump_shell_events, send_all, send_some, push_browser, send_polled, push_clipboard,
  is_report, receive, tick_on, tick,
}

module _ (e : Machine) where
  ship-IsSession :
      (s : Session) (slot : ShellSlot) (legacy : Bool) (pieces : List Bytes)
      → IsSession s
      → IsSession (ship e s slot legacy pieces).session
  unfolding ship
  ship-IsSession s slot legacy [] w = w
  ship-IsSession s slot legacy (piece ∷ rest) w =
      let noted = record s { flow = note_sent s.flow slot (length piece) e.now } in
      let sent = send e noted (output_message legacy piece) in
      let fit =
        send-IsSession e noted (output_message legacy piece) (touched-IsSession _ _ _ _ w) in
      and_then-IsSession sent (λ t. ship e t slot legacy rest) fit
        (ship-IsSession sent.session slot legacy rest fit)

  clear-IsSession : (slot : ShellSlot) (s : Session) → IsSession s → IsSession (clear slot s)
  clear-IsSession exec s w = record { idle = λ h. (refl, (w.idle h).1); alone = λ h. refl }
  clear-IsSession pty s w = record { idle = λ h. ((w.idle h).0, refl); alone = λ h. cc h }

  report_exit-IsSession :
      (s : Session) (slot : ShellSlot) (legacy : Bool) (code : Option ℤ)
      → IsSession s
      → IsSession (report_exit e s slot legacy code).session
  report_exit-IsSession s slot legacy none w = w
  report_exit-IsSession s slot legacy (some code) w =
      send-IsSession e (clear slot s) (exit_message legacy code) (clear-IsSession slot s w)

  mark_use-IsSession :
      (slot : ShellSlot) (out : Bytes) (s : Session)
      → IsSession s
      → IsSession (mark_use e slot out s)
  mark_use-IsSession exec out s w = w
  mark_use-IsSession pty out s w = elim (Bool-cases (length out == 0)) [
    | inl t ↦ rw t w
    | inr n ↦ rw n (touched-IsSession _ _ _ _ w)
  ]

  pump_slot-IsSession :
      (s : Session) (slot : ShellSlot) (buffers : Bool) (events : List ShellEvent)
      (exited : Option ℤ)
      → IsSession s
      → IsSession (pump_slot e s slot buffers events exited).outcome.session
  unfolding pump_slot deliver_output
  pump_slot-IsSession s slot buffers events exited w =
      elim (Bool-cases (budget_of e s slot buffers == 0)) [
        | inl t ↦ rw t w
        | inr n ↦ elim (Bool-cases (is_some (proc_of slot s))) [
          | inr m ↦ rw (n, m) w
          | inl m ↦
              let g = gather (budget_of e s slot buffers) [] events in
              let legacy = speaks_legacy slot s in
              let shipped = ship e s slot legacy (split_shell_output g.out) in
              let fit = ship-IsSession s slot legacy (split_shell_output g.out) w in
              rw (n, m)
                (and_then-IsSession shipped
                  (λ t.
                    report_exit e (mark_use e slot g.out t) slot legacy (or_exited g.code exited))
                  fit
                  (report_exit-IsSession (mark_use e slot g.out shipped.session) slot legacy
                    (or_exited g.code exited) (mark_use-IsSession slot g.out shipped.session fit)))
        ]
      ]

  pump_shell_events-IsSession :
      (s : Session) (found : Found) → IsSession s → IsSession (pump_shell_events e s found).session
  unfolding pump_shell_events
  pump_shell_events-IsSession s found w =
      let released = record s { flow = (release_if_stalled s.flow e.now).0 } in
      let ptys = pump_slot e released pty found.buffers_sends found.pty_events found.pty_exited in
      let fit =
        pump_slot-IsSession released pty found.buffers_sends found.pty_events found.pty_exited
          (touched-IsSession _ _ _ _ w) in
      and_then-IsSession ptys.outcome
        (λ t. (pump_slot e t exec found.buffers_sends found.exec_events found.exec_exited).outcome)
        fit
        (pump_slot-IsSession ptys.outcome.session exec found.buffers_sends found.exec_events
          found.exec_exited fit)

  send_all-IsSession :
      (s : Session) (msgs : List Message) → IsSession s → IsSession (send_all e s msgs).session
  unfolding send_all
  send_all-IsSession s [] w = w
  send_all-IsSession s (msg ∷ rest) w =
      let fit = send-IsSession e s msg w in
      and_then-IsSession (send e s msg) (λ t. send_all e t rest) fit
        (send_all-IsSession (send e s msg).session rest fit)

  push_browser-IsSession :
      (s : Session) (frame : Option Message)
      → IsSession s
      → IsSession (push_browser e s frame).session
  unfolding push_browser
  push_browser-IsSession s frame w = go (is_connected s.state) frame
    where
      go :
          (on : Bool) (frame : Option Message)
          → IsSession (if on then send_some e s frame else done s).session
      go true none = w
      go true (some msg) = send-IsSession e s msg w
      go false frame = w

  push_clipboard-IsSession :
      (s : Session) (found : Found)
      → IsSession s
      → IsSession (push_clipboard e s found.clipboard).session
  unfolding push_clipboard
  push_clipboard-IsSession s found w =
      go (is_connected s.state) (poll found.clipboard s.clipboard e.now)
    where
      go :
          (on : Bool) (polled : Polled)
          → IsSession (if on then send_polled e s polled else done s).session
      go true (c, msgs) =
          send_all-IsSession (record s { clipboard = c }) msgs (touched-IsSession _ _ _ _ w)
      go false polled = w

  receive-IsSession :
      (s : Session) (reports : ℕ) (arrived : List Message)
      → IsSession s
      → IsSession (receive e s reports arrived).session
  unfolding receive
  receive-IsSession s reports [] w = w
  receive-IsSession s reports (msg ∷ rest) w =
      let handled = handle_packet e s msg in
      let fit = handle_packet-IsSession e s msg w in
      and_then-IsSession handled
        (λ t.
          if not (is_report msg) || (reports == 32) then done t else receive e t (reports + 1) rest)
        fit
        (go (not (is_report msg) || (reports == 32)) handled.session fit
          (receive-IsSession handled.session (reports + 1) rest fit))
    where
      go :
          (stop : Bool) (t : Session)
          → IsSession t
          → IsSession (receive e t (reports + 1) rest).session
          → IsSession (if stop then done t else receive e t (reports + 1) rest).session
      go true t fit more = fit
      go false t fit more = more

  tick_on-IsSession :
      (s : Session) (found : Found) → IsSession s → IsSession (tick_on e found s).session
  unfolding tick_on
  tick_on-IsSession s found w =
      let pumped = (pump_shell_events e s found).session in
      let framed = (push_browser e pumped found.browser).session in
      let pushed = (push_clipboard e framed found.clipboard).session in
      let a = pump_shell_events-IsSession s found w in
      let b = push_browser-IsSession pumped found.browser a in
      let c = push_clipboard-IsSession framed found b in
      elim (Bool-cases
        (is_connected s.state && leb (heartbeat_timeout s) (e.now - s.last_heartbeat_recv))) [
          | inl t ↦ rw t (disconnect-IsSession e s w)
          | inr n ↦
              let last = λ (v : Session). receive e v 0 found.arrived in
              let third = λ (u : Session). and_then (push_clipboard e u found.clipboard) last in
              let second = λ (t : Session). and_then (push_browser e t found.browser) third in
              rw n (
                and_then-IsSession (pump_shell_events e s found) second a (
                  and_then-IsSession (push_browser e pumped found.browser) third b (
                    and_then-IsSession (push_clipboard e framed found.clipboard) last c
                      (receive-IsSession pushed 0 found.arrived c))))
        ]

  beat-IsSession : (s : Session) → IsSession s → IsSession (beat e s).session
  unfolding beat
  beat-IsSession s w =
      elim (Bool-cases (is_connected s.state && leb 2000 (e.now - s.last_heartbeat_sent))) [
        | inr n ↦ rw n w
        | inl t ↦
            let fit = send-IsSession e s Message.heartbeat w in
            rw t (
              and_then-IsSession (send e s Message.heartbeat)
                (λ u. done (record u { last_heartbeat_sent = e.now })) fit
                (record { idle = fit.idle; alone = fit.alone }))
      ]

  tick-IsSession : (s : Session) (found : Found) → IsSession s → IsSession (tick e s found).session
  unfolding tick
  tick-IsSession s found w =
      and_then-IsSession (beat e s) (tick_on e found) (beat-IsSession s w)
        (tick_on-IsSession (beat e s).session found (beat-IsSession s w))

-- Ticks one after the other, each with its machine and what it finds. An error is the caller's: the
-- session stays in use.
abbrev pub ticks : Session → List (Machine × Found) → Session
ticks s [] = s
ticks s ((e, found) ∷ rest) = ticks (tick e s found).session rest

-- From a session that has no shell, over ticks that find any packets, shell events, exits, browser
-- frames and clipboards, however the machine's calls end: a legacy console and an exec shell are
-- never open together, and while no client is connected no slot is filled.
pub ticks-IsSession :
    (s : Session) (found : List (Machine × Found))
    → s.exec ≡ none
    → s.pty ≡ none
    → IsSession (ticks s found)
ticks-IsSession s found a b = go found s (record { idle = λ h. (a, b); alone = λ h. a })
  where
    go : (found : List (Machine × Found)) (s : Session) → IsSession s → IsSession (ticks s found)
    go [] s w = w
    go ((e, f) ∷ rest) s w = go rest (tick e s f).session (tick-IsSession e s f w)
