-- ===== src/Host/Session/Reachable.antt =====
-- The slots of a session behind whole packets, where its input goes, and how it ends.
use wiredesk.Base.{
  ℕ, ◌+◌, ◌-◌, ◌≤◌, ◌≡◌, ◌⊎◌, refl, ap, ◌∙◌, true, false, inl, inr, Option, none, some, leb, All,
  Bool-cases, arith,
}
use wiredesk.Base.Bytes.{Bytes}
use wiredesk.Protocol.Message.{Message}
use wiredesk.Host.Flow.{heartbeat_timeout_for}
use wiredesk.Host.Clipboard.{transfer_in_flight}
use wiredesk.Host.Clipboard.Incoming.{reset}
use wiredesk.Host.Session.{
  SessionState, waiting_for_hello, connected, disconnected, PtySlot, Session, Machine, Call, wrote,
  prepend, and_then, kill_all_shells, reset_clipboard,
}
use wiredesk.Host.Session.Shells.{write_legacy, write_exec, shell_input, write_dedicated, pty_input}
use wiredesk.Host.Session.Handler.{
  tear_down, disconnect, inject, handle_connected, handle_in, handle_packet, time_out, is_connected,
  heartbeat_timeout,
}
use wiredesk.Host.Session.Accounts.{held}
use wiredesk.Host.Session.Slots.{
  IsSession, hello-IsSession, disconnect-IsSession, rehello-IsSession, shell_open-IsSession,
  shell_open_pty-IsSession, pty_open-IsSession,
}
use wiredesk.Host.Session.Closing.{
  touched-IsSession, shell_close-IsSession, pty_close-IsSession, shell_input-IsSession,
  pty_input-IsSession, resize_slot-IsSession, clipboard_message-IsSession,
}

handle_connected-IsSession :
    (e : Machine) (s : Session) (m : Message)
    → is_connected s.state ≡ true
    → IsSession s
    → IsSession (handle_connected e s m).session
unfolding handle_connected inject
handle_connected-IsSession e s Message.heartbeat c w = touched-IsSession _ _ _ _ w
handle_connected-IsSession e s (Message.rx_progress count) c w = touched-IsSession _ _ _ _ w
handle_connected-IsSession e s (Message.clip_offer f n) c w =
    clipboard_message-IsSession e s (Message.clip_offer f n) w
handle_connected-IsSession e s (Message.clip_chunk i b) c w =
    clipboard_message-IsSession e s (Message.clip_chunk i b) w
handle_connected-IsSession e s (Message.clip_decline f) c w =
    clipboard_message-IsSession e s (Message.clip_decline f) w
handle_connected-IsSession e s (Message.shell_open shell) c w = shell_open-IsSession e s shell c w
handle_connected-IsSession e s (Message.shell_open_pty shell cols rows) c w =
    shell_open_pty-IsSession e s shell cols rows c w
handle_connected-IsSession e s (Message.pty_open shell cols rows) c w =
    pty_open-IsSession e s shell cols rows c w
handle_connected-IsSession e s (Message.pty_resize cols rows) c w =
    resize_slot-IsSession e s s.pty cols rows w
handle_connected-IsSession e s (Message.shell_input b) c w = shell_input-IsSession s b w
handle_connected-IsSession e s (Message.pty_input b) c w = pty_input-IsSession e s b w
handle_connected-IsSession e s Message.shell_close c w = shell_close-IsSession e s w
handle_connected-IsSession e s Message.pty_close c w = pty_close-IsSession s w
handle_connected-IsSession e s Message.disconnect c w = disconnect-IsSession e s w
handle_connected-IsSession e s (Message.hello v n) c w = rehello-IsSession e s v n
handle_connected-IsSession e s m c w = w

pub handle_packet-IsSession :
    (e : Machine) (s : Session) (m : Message)
    → IsSession s
    → IsSession (handle_packet e s m).session
unfolding handle_packet
handle_packet-IsSession e s m w = go s.state refl m
  where
    go :
        (state : SessionState)
        → s.state ≡ state
        → (m : Message) → IsSession (handle_in e s state m).session
    go connected c m = handle_connected-IsSession e s m (ap is_connected c) w
    go waiting_for_hello c (Message.hello v n) =
        let (a, b) = w.idle (ap is_connected c) in hello-IsSession e s v n a b
    go waiting_for_hello c m = w
    go disconnected c (Message.hello v n) = rehello-IsSession e s v n
    go disconnected c m = w

-- The bytes go to the exec shell, or without one to a legacy console.
abbrev pub IsExecWrite : Session → Bytes → Call → Type 0
IsExecWrite s bytes c =
    (proc : ℕ) × (c ≡ wrote proc bytes)
    × ((s.exec ≡ some proc)
        ⊎ ((s.exec ≡ none) × (s.pty ≡ some (record { proc = proc; legacy = true }))))

-- They go to a console of its own.
abbrev pub IsPtyWrite : Session → Bytes → Call → Type 0
IsPtyWrite s bytes c =
    (proc : ℕ) × (c ≡ wrote proc bytes) × (s.pty ≡ some (record { proc = proc; legacy = false }))

legacy_writes :
    (s : Session) (bytes : Bytes) (o : Option PtySlot)
    → s.exec ≡ none
    → s.pty ≡ o
    → All (IsExecWrite s bytes) (write_legacy s o bytes).calls
legacy_writes s bytes none n h = tt
legacy_writes s bytes (some slot) n h = elim (Bool-cases slot.legacy) [
  | inr f ↦ rw f tt
  | inl t ↦
      rw t (
        (slot.proc, refl, inr (n, h ∙ (λ i. some (record { proc = slot.proc; legacy = t i })))),
        tt,
      )
]

exec_writes :
    (s : Session) (bytes : Bytes) (o : Option ℕ)
    → s.exec ≡ o
    → All (IsExecWrite s bytes) (write_exec s o bytes).calls
exec_writes s bytes none h = legacy_writes s bytes s.pty h refl
exec_writes s bytes (some proc) h = ((proc, refl, inl h), tt)

pty_writes :
    (e : Machine) (s : Session) (bytes : Bytes) (o : Option PtySlot)
    → s.pty ≡ o
    → All (IsPtyWrite s bytes) (write_dedicated e s o bytes).calls
pty_writes e s bytes none h = tt
pty_writes e s bytes (some slot) h = elim (Bool-cases slot.legacy) [
  | inl t ↦ rw t tt
  | inr n ↦
      rw n ((slot.proc, refl, h ∙ (λ i. some (record { proc = slot.proc; legacy = n i }))), tt)
]

-- In every state, the bytes of a `ShellInput` reach at most the exec shell or, without one, a console
-- that was opened the legacy way, and the bytes of a `PtyInput` at most a console that was not.
pub handle_packet-writes :
    (e : Machine) (s : Session) (bytes : Bytes)
    → All (IsExecWrite s bytes) (handle_packet e s (Message.shell_input bytes)).calls
      × All (IsPtyWrite s bytes) (handle_packet e s (Message.pty_input bytes)).calls
unfolding handle_packet handle_connected shell_input pty_input
handle_packet-writes e s bytes = go s.state
  where
    go :
        (state : SessionState)
        → All (IsExecWrite s bytes) (handle_in e s state (Message.shell_input bytes)).calls
          × All (IsPtyWrite s bytes) (handle_in e s state (Message.pty_input bytes)).calls
    go waiting_for_hello = (tt, tt)
    go disconnected = (tt, tt)
    go connected = (exec_writes s bytes s.exec refl, pty_writes e s bytes s.pty refl)

timeout-le : (s : Session) → heartbeat_timeout s ≤ 30000
unfolding heartbeat_timeout heartbeat_timeout_for
timeout-le s = ground arith

torn_down :
    (s : Session) (x : ℕ)
    → ((tear_down s).session.state ≡ waiting_for_hello)
      × (held x (tear_down s).session ≡ 0)
      × (transfer_in_flight (tear_down s).session.clipboard ≡ false)
unfolding tear_down kill_all_shells reset_clipboard and_then prepend reset
torn_down s x = (refl, omega arith, refl)

-- A connected session that has heard no heartbeat for 30 seconds ends at the next look at the clock,
-- where the injector releases its keys: it waits for a `Hello`, holds no process in a slot or warm,
-- and its clipboard moves nothing.
pub time_out-ends :
    (e : Machine) (s : Session) (x : ℕ)
    → s.state ≡ connected
    → s.last_heartbeat_recv + 30000 ≤ e.now
    → e.releases ≡ true
    → ((time_out e s).session.state ≡ waiting_for_hello)
      × (held x (time_out e s).session ≡ 0)
      × (transfer_in_flight (time_out e s).session.clipboard ≡ false)
unfolding time_out disconnect prepend
time_out-ends e s x c late r =
    let due : leb (heartbeat_timeout s) (e.now - s.last_heartbeat_recv) ≡ true =
      ground (arith, timeout-le s) in
    rw (ap is_connected c, due, r) (torn_down s x)
