-- ===== src/Host/Session/Conserved.antt =====
-- The processes of a session over whole packets.
use wiredesk.Base.{
  ℕ, ◌+◌, ◌≡◌, refl, ◌&&◌, inl, inr, List, [], ◌∷◌, ◌++◌, none, some, leb, ◌-◌, Bool-cases, arith,
}
use wiredesk.Protocol.Message.{Message}
use wiredesk.Host.Flow.{on_report}
use wiredesk.Host.Clipboard.Incoming.{on_message, Answer}
use wiredesk.Host.Clipboard.{ClipboardSync}
use wiredesk.Host.Session.{
  SessionState, waiting_for_hello, connected, disconnected, Session, Machine, Call, dispatched,
  Outcome, done, send, clipboard_calls,
}
use wiredesk.Host.Session.Handler.{
  answer_clipboard, clipboard_message, inject, handle_connected, handle_in, handle_packet, time_out,
  is_connected, heartbeat_timeout,
}
use wiredesk.Host.Session.Accounts.{
  held, started, ended, started-append, ended-append, Balanced, prepend-Balanced, done-Balanced,
  send-Balanced, no_processes, hello-Balanced, disconnect-Balanced, rehello-Balanced,
}
use wiredesk.Host.Session.Ledger.{
  calls-Balanced, shell_open-Balanced, shell_open_pty-Balanced, pty_open-Balanced,
  resize_slot-Balanced, shell_input-Balanced, pty_input-Balanced, shell_close-Balanced,
  pty_close-Balanced,
}

answer_clipboard-Balanced :
    (e : Machine) (s : Session) (r : ClipboardSync × Answer) → Balanced s (answer_clipboard e s r)
unfolding Balanced
answer_clipboard-Balanced e s (c, (none, effects)) = λ x. omega (arith, no_processes x effects)
answer_clipboard-Balanced e s (c, (some answer, effects)) =
    let updated = record s { clipboard = c } in
    prepend-Balanced s updated (clipboard_calls effects) (send e updated answer)
      (λ x. omega (arith, no_processes x effects)) (send-Balanced e updated answer)

inject-Balanced : (e : Machine) (s : Session) (m : Message) → Balanced s (inject e s m)
unfolding inject Balanced
inject-Balanced e s m x = omega arith

clipboard_message-Balanced :
    (e : Machine) (s : Session) (m : Message) → Balanced s (clipboard_message e s m)
unfolding clipboard_message
clipboard_message-Balanced e s m =
    answer_clipboard-Balanced e s (on_message e.platform s.clipboard m)

-- Fields that hold no process.
heard-Balanced :
    (s : Session) (now : ℕ) → Balanced s (done (record s { last_heartbeat_recv = now }))
unfolding Balanced
heard-Balanced s now x = omega arith

reported-Balanced :
    (s : Session) (count now : ℕ)
    → Balanced s (done (record s { flow = (on_report s.flow count now).0 }))
unfolding Balanced
reported-Balanced s count now x = omega arith

handle_connected-Balanced :
    (e : Machine) (s : Session) (m : Message) → Balanced s (handle_connected e s m)
unfolding handle_connected
handle_connected-Balanced e s Message.heartbeat = heard-Balanced s e.now
handle_connected-Balanced e s (Message.rx_progress count) = reported-Balanced s count e.now
handle_connected-Balanced e s (Message.browser stream kind offset bytes) =
    calls-Balanced s (dispatched (Message.browser stream kind offset bytes)) (λ x. refl)
handle_connected-Balanced e s (Message.mouse_move x y) =
    inject-Balanced e s (Message.mouse_move x y)
handle_connected-Balanced e s (Message.mouse_button b p) =
    inject-Balanced e s (Message.mouse_button b p)
handle_connected-Balanced e s (Message.mouse_scroll x y) =
    inject-Balanced e s (Message.mouse_scroll x y)
handle_connected-Balanced e s (Message.key_down c k) = inject-Balanced e s (Message.key_down c k)
handle_connected-Balanced e s (Message.key_up c k) = inject-Balanced e s (Message.key_up c k)
handle_connected-Balanced e s (Message.clip_offer f n) =
    clipboard_message-Balanced e s (Message.clip_offer f n)
handle_connected-Balanced e s (Message.clip_chunk i b) =
    clipboard_message-Balanced e s (Message.clip_chunk i b)
handle_connected-Balanced e s (Message.clip_decline f) =
    clipboard_message-Balanced e s (Message.clip_decline f)
handle_connected-Balanced e s (Message.shell_open shell) = shell_open-Balanced e s shell
handle_connected-Balanced e s (Message.shell_open_pty shell c r) =
    shell_open_pty-Balanced e s shell c r
handle_connected-Balanced e s (Message.pty_open shell c r) = pty_open-Balanced e s shell c r
handle_connected-Balanced e s (Message.pty_resize c r) = resize_slot-Balanced e s s.pty c r
handle_connected-Balanced e s (Message.shell_input b) = shell_input-Balanced s b
handle_connected-Balanced e s (Message.pty_input b) = pty_input-Balanced e s b
handle_connected-Balanced e s Message.shell_close = shell_close-Balanced e s
handle_connected-Balanced e s Message.pty_close = pty_close-Balanced s
handle_connected-Balanced e s Message.disconnect = disconnect-Balanced e s
handle_connected-Balanced e s (Message.hello v n) = rehello-Balanced e s v n
handle_connected-Balanced e s m = done-Balanced s

handle_packet-Balanced :
    (e : Machine) (s : Session) (m : Message) → Balanced s (handle_packet e s m)
unfolding handle_packet
handle_packet-Balanced e s m = go s.state m
  where
    go : (state : SessionState) (m : Message) → Balanced s (handle_in e s state m)
    go connected m = handle_connected-Balanced e s m
    go waiting_for_hello (Message.hello v n) = hello-Balanced e s v n
    go waiting_for_hello m = done-Balanced s
    go disconnected (Message.hello v n) = rehello-Balanced e s v n
    go disconnected m = done-Balanced s

time_out-Balanced : (e : Machine) (s : Session) → Balanced s (time_out e s)
unfolding time_out
time_out-Balanced e s =
    elim (Bool-cases
      (is_connected s.state && leb (heartbeat_timeout s) (e.now - s.last_heartbeat_recv))) [
        | inl t ↦ rw t (disconnect-Balanced e s)
        | inr n ↦ rw n (done-Balanced s)
      ]

-- What happens to a session: a packet, or a look at the clock.
pub data Event : Type 0 where
  packet : (msg : Message) → Event
  looked : Event

abbrev pub step : Machine → Session → Event → Outcome
step e s (packet msg) = handle_packet e s msg
step e s looked = time_out e s

-- A history, each event with what the machine does then. An error is the caller's: the session
-- stays in use.
abbrev pub history : Session → List (Machine × Event) → Session × List Call
history s [] = (s, [])
history s ((e, event) ∷ rest) =
    let o = step e s event in let later = history o.session rest in (later.0, o.calls ++ later.1)

-- Whatever packets come, however the starts, sends and calls of the injector end, and whenever the
-- session times out, no process is lost: for each process, how often the session holds it at the end,
-- in a slot or warm, and how often it was killed are together how often it was held at the start and
-- how often it was started.
pub history-held :
    (x : ℕ) (s : Session) (events : List (Machine × Event))
    → held x (history s events).0 + ended x (history s events).1
      ≡ held x s + started x (history s events).1
unfolding Balanced
history-held x s [] = omega arith
history-held x s ((e, event) ∷ rest) =
    let o = step e s event in
    let later = history o.session rest in
    omega (
      arith,
      history-held x o.session rest,
      balanced event x,
      started-append x o.calls later.1,
      ended-append x o.calls later.1,
    )
  where
    balanced : (event : Event) → Balanced s (step e s event)
    balanced (packet msg) = handle_packet-Balanced e s msg
    balanced looked = time_out-Balanced e s
