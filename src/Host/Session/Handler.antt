-- ===== src/Host/Session/Handler.antt =====
-- apps/wiredesk-host/src/session.rs: `handle_packet`, and the start of a tick.
use wiredesk.Base.{
  ℕ, ◌-◌, Bool, true, false, not, ◌&&◌, ◌||◌, [], ◌∷◌, none, some, leb, ◌==◌, if◌then◌else◌,
}
use wiredesk.Base.Bytes.{Bytes}
use wiredesk.Protocol.Message.{Message, version, host_proto_version}
use wiredesk.Host.Flow.{new, on_report, heartbeat_timeout_for}
use wiredesk.Host.Clipboard.{ClipboardSync, transfer_in_flight}
use wiredesk.Host.Clipboard.Incoming.{Answer, on_message}
use wiredesk.Host.Session.{
  SessionState, waiting_for_hello, connected, disconnected, Session, Machine, injected, released,
  browser_reset, dispatched, Outcome, done, with_calls, prepend, and_then, send, warm_kill,
  kill_all_shells, clipboard_calls, reset_clipboard, is_some, warm_up,
}
use wiredesk.Host.Session.Shells.{
  shell_open, shell_open_pty, pty_open, resize_slot, shell_input, pty_input, shell_close, pty_close,
}

-- The arm of a `Hello` that is waited for.
unfoldable pub hello : Machine → Session → ℕ → Bytes → Outcome
unfolding send warm_up
hello e s v client_name =
    let met = record s { client_name = some client_name; flow = new e.now } in
    let ack = Message.hello_ack host_proto_version s.host_name s.screen_w s.screen_h in
    if not (v == version)
    then send e s (Message.error 1 [])
    else prepend (browser_reset ∷ []) (
        and_then (send e met ack)
          (λ t. warm_up e (record t { state = connected; last_heartbeat_recv = e.now })))

-- The end of a session, behind `release_all`.
unfoldable pub tear_down : Session → Outcome
unfolding kill_all_shells reset_clipboard
tear_down s = and_then (kill_all_shells s) (λ t. and_then (warm_kill t) (λ u.
    and_then (reset_clipboard u)
      (λ v. done (record v { state = waiting_for_hello; client_name = none }))))

-- `self.injector.release_all()?` in front of it.
unfoldable pub disconnect : Machine → Session → Outcome
unfolding tear_down
disconnect e s =
    prepend (released ∷ [])
      (if e.releases then tear_down s else record { session = s; calls = []; ok = false })

-- A `Hello` in another state.
unfoldable pub rehello : Machine → Session → ℕ → Bytes → Outcome
unfolding hello kill_all_shells reset_clipboard
rehello e s v client_name = prepend (released ∷ []) (
    and_then (reset_clipboard s) (λ t.
      and_then (kill_all_shells t)
        (λ u. hello e (record u { state = waiting_for_hello; client_name = none }) v client_name)))

abbrev pub answer_clipboard : Machine → Session → ClipboardSync × Answer → Outcome
answer_clipboard e s (c, (none, effects)) =
    with_calls (clipboard_calls effects) (record s { clipboard = c })
answer_clipboard e s (c, (some answer, effects)) =
    prepend (clipboard_calls effects) (send e (record s { clipboard = c }) answer)

unfoldable pub clipboard_message : Machine → Session → Message → Outcome
unfolding send on_message
clipboard_message e s msg = answer_clipboard e s (on_message e.platform s.clipboard msg)

-- A call of the injector, whose `Err` the handler returns.
unfoldable pub inject : Machine → Session → Message → Outcome
inject e s msg = record { session = s; calls = injected msg ∷ []; ok = e.injects msg }

unfoldable pub handle_connected : Machine → Session → Message → Outcome
unfolding disconnect rehello shell_open shell_open_pty pty_open shell_input pty_input shell_close
    pty_close clipboard_message inject
handle_connected e s Message.heartbeat = done (record s { last_heartbeat_recv = e.now })
handle_connected e s (Message.rx_progress count) =
    done (record s { flow = (on_report s.flow count e.now).0 })
handle_connected e s (Message.browser stream kind offset bytes) =
    with_calls (dispatched (Message.browser stream kind offset bytes) ∷ []) s
handle_connected e s (Message.mouse_move x y) = inject e s (Message.mouse_move x y)
handle_connected e s (Message.mouse_button button pressed) =
    inject e s (Message.mouse_button button pressed)
handle_connected e s (Message.mouse_scroll delta_x delta_y) =
    inject e s (Message.mouse_scroll delta_x delta_y)
handle_connected e s (Message.key_down scancode modifiers) =
    inject e s (Message.key_down scancode modifiers)
handle_connected e s (Message.key_up scancode modifiers) =
    inject e s (Message.key_up scancode modifiers)
handle_connected e s (Message.clip_offer format total_len) =
    clipboard_message e s (Message.clip_offer format total_len)
handle_connected e s (Message.clip_chunk index bytes) =
    clipboard_message e s (Message.clip_chunk index bytes)
handle_connected e s (Message.clip_decline format) =
    clipboard_message e s (Message.clip_decline format)
handle_connected e s (Message.shell_open shell) = shell_open e s shell
handle_connected e s (Message.shell_open_pty shell cols rows) = shell_open_pty e s shell cols rows
handle_connected e s (Message.pty_open shell cols rows) = pty_open e s shell cols rows
handle_connected e s (Message.pty_resize cols rows) = resize_slot e s s.pty cols rows
handle_connected e s (Message.shell_input bytes) = shell_input s bytes
handle_connected e s (Message.pty_input bytes) = pty_input e s bytes
handle_connected e s Message.shell_close = shell_close e s
handle_connected e s Message.pty_close = pty_close s
handle_connected e s Message.disconnect = disconnect e s
handle_connected e s (Message.hello v client_name) = rehello e s v client_name
handle_connected e s msg = done s

abbrev pub handle_waiting : Machine → Session → Message → Outcome
handle_waiting e s (Message.hello v client_name) = hello e s v client_name
handle_waiting e s msg = done s

abbrev pub handle_disconnected : Machine → Session → Message → Outcome
handle_disconnected e s (Message.hello v client_name) = rehello e s v client_name
handle_disconnected e s msg = done s

abbrev pub handle_in : Machine → Session → SessionState → Message → Outcome
handle_in e s waiting_for_hello msg = handle_waiting e s msg
handle_in e s connected msg = handle_connected e s msg
handle_in e s disconnected msg = handle_disconnected e s msg

unfoldable pub handle_packet : Machine → Session → Message → Outcome
unfolding handle_connected hello rehello
handle_packet e s msg = handle_in e s s.state msg

unfoldable pub heartbeat_timeout : Session → ℕ
unfolding heartbeat_timeout_for
heartbeat_timeout s =
    heartbeat_timeout_for (transfer_in_flight s.clipboard) (is_some s.exec || is_some s.pty)

-- `tick` up to the shells: the heartbeat, and the end of a silent session.
abbrev pub is_connected : SessionState → Bool
is_connected waiting_for_hello = false
is_connected connected = true
is_connected disconnected = false

unfoldable pub beat : Machine → Session → Outcome
unfolding send
beat e s =
    if is_connected s.state && leb 2000 (e.now - s.last_heartbeat_sent)
    then and_then (send e s Message.heartbeat)
        (λ t. done (record t { last_heartbeat_sent = e.now }))
    else done s

unfoldable pub time_out : Machine → Session → Outcome
unfolding disconnect heartbeat_timeout
time_out e s =
    if is_connected s.state && leb (heartbeat_timeout s) (e.now - s.last_heartbeat_recv)
    then disconnect e s
    else done s
