-- ===== src/Host/Session/Tick.antt =====
-- apps/wiredesk-host/src/session.rs: `tick` and `pump_shell_events`. The storm counter is left out.
use wiredesk.Base.{
  ℕ, ◌+◌, ◌-◌, Bool, true, false, not, ◌&&◌, ◌||◌, List, [], ◌∷◌, Option, none, some, leb, ◌==◌,
  if◌then◌else◌,
}
use wiredesk.Base.Int.{ℤ}
use wiredesk.Protocol.Message.{Message}
use wiredesk.Host.Flow.{exec, pty, release_if_stalled}
use wiredesk.Host.Clipboard.Outgoing.{Local, Polled, poll}
use wiredesk.Host.Session.{Session, Machine, Outcome, done, and_then, send}
use wiredesk.Host.Session.Handler.{handle_packet, heartbeat_timeout, is_connected, beat, disconnect}
use wiredesk.Host.Session.Pump.{ShellEvent, pump_slot}

abbrev pub max_reports_per_tick : ℕ
max_reports_per_tick = 32

-- What a tick finds: whether the link buffers, the events of the two shells and what their
-- `try_exit_code` says, a frame of the browser hub, the system's clipboard, and the packets that
-- `recv` gives until it times out or fails, which ends the tick without a change of the session.
pub record Found : Type 0 where
  pub buffers_sends : Bool
  pub pty_events : List ShellEvent
  pub exec_events : List ShellEvent
  pub pty_exited : Option ℤ
  pub exec_exited : Option ℤ
  pub browser : Option Message
  pub clipboard : Local
  pub arrived : List Message

unfoldable pub pump_shell_events : Machine → Session → Found → Outcome
unfolding and_then pump_slot
pump_shell_events e s found =
    let released = record s { flow = (release_if_stalled s.flow e.now).0 } in
    let ptys = pump_slot e released pty found.buffers_sends found.pty_events found.pty_exited in
    and_then ptys.outcome
      (λ t. (pump_slot e t exec found.buffers_sends found.exec_events found.exec_exited).outcome)

unfoldable pub send_all : Machine → Session → List Message → Outcome
unfolding send and_then
send_all e s [] = done s
send_all e s (msg ∷ rest) = and_then (send e s msg) (λ t. send_all e t rest)

abbrev pub send_some : Machine → Session → Option Message → Outcome
send_some e s none = done s
send_some e s (some msg) = send e s msg

unfoldable pub push_browser : Machine → Session → Option Message → Outcome
unfolding send
push_browser e s frame = if is_connected s.state then send_some e s frame else done s

abbrev pub send_polled : Machine → Session → Polled → Outcome
send_polled e s (c, msgs) = send_all e (record s { clipboard = c }) msgs

unfoldable pub push_clipboard : Machine → Session → Local → Outcome
unfolding send_all
push_clipboard e s l =
    if is_connected s.state then send_polled e s (poll l s.clipboard e.now) else done s

abbrev pub is_report : Message → Bool
is_report (Message.rx_progress count) = true
is_report (Message.browser stream kind offset bytes) = true
is_report _ = false

-- The loop over `recv`, `reports` of its rounds done.
unfoldable pub receive : Machine → Session → ℕ → List Message → Outcome
unfolding and_then handle_packet
receive e s reports [] = done s
receive e s reports (msg ∷ rest) = and_then (handle_packet e s msg) (λ t.
    let more = receive e t (reports + 1) rest in
    if not (is_report msg) || (reports == max_reports_per_tick) then done t else more)

-- `tick` behind the heartbeat.
unfoldable pub tick_on : Machine → Found → Session → Outcome
unfolding disconnect heartbeat_timeout pump_shell_events push_browser push_clipboard receive
    and_then
tick_on e found s =
    if is_connected s.state && leb (heartbeat_timeout s) (e.now - s.last_heartbeat_recv)
    then disconnect e s
    else and_then (pump_shell_events e s found) (λ t.
      and_then (push_browser e t found.browser)
        (λ u. and_then (push_clipboard e u found.clipboard) (λ v. receive e v 0 found.arrived)))

unfoldable pub tick : Machine → Session → Found → Outcome
unfolding beat tick_on and_then
tick e s found = and_then (beat e s) (tick_on e found)
