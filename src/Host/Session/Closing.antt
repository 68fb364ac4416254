-- ===== src/Host/Session/Closing.antt =====
-- The slots behind the arms that close a shell or write to it.
use wiredesk.Base.{ℕ, refl, inl, inr, [], ◌∷◌, Option, none, some, Bool-cases}
use wiredesk.Base.Bytes.{Bytes}
use wiredesk.Protocol.Message.{Message}
use wiredesk.Host.Flow.{ShellFlow}
use wiredesk.Host.Clipboard.{ClipboardSync}
use wiredesk.Host.Clipboard.Incoming.{Answer, on_message}
use wiredesk.Host.Session.{PtySlot, Session, Machine, closed, and_then, send, exec_kill, pty_kill}
use wiredesk.Host.Session.Shells.{
  resize_slot, write_legacy, write_exec, shell_input, write_dedicated, pty_input, close_legacy,
  close_exec, shell_close, close_dedicated, pty_close,
}
use wiredesk.Host.Session.Handler.{answer_clipboard, clipboard_message}
use wiredesk.Host.Session.Slots.{IsSession, prepend-IsSession, and_then-IsSession, send-IsSession}

exec_kill-IsSession : (s : Session) → IsSession s → IsSession (exec_kill s).session
exec_kill-IsSession s w = record { idle = λ h. (refl, (w.idle h).1); alone = λ h. refl }

pty_kill-IsSession : (s : Session) → IsSession s → IsSession (pty_kill s).session
pty_kill-IsSession s w = record { idle = λ h. ((w.idle h).0, refl); alone = λ h. cc h }

-- Fields that are neither the state nor a slot.
pub touched-IsSession :
    {s : Session} (recv activity : ℕ) (flow : ShellFlow) (c : ClipboardSync)
    → IsSession s
    → IsSession (record s {
      last_heartbeat_recv = recv;
      pty_last_activity = activity;
      flow = flow;
      clipboard = c;
    })
touched-IsSession recv activity flow c w = record { idle = w.idle; alone = w.alone }

pub shell_close-IsSession :
    (e : Machine) (s : Session) → IsSession s → IsSession (shell_close e s).session
unfolding shell_close
shell_close-IsSession e s w = go s.exec
  where
    legacy : (o : Option PtySlot) → IsSession (close_legacy e s o).session
    legacy none = w
    legacy (some slot) = elim (Bool-cases slot.legacy) [
      | inr n ↦ rw n w
      | inl t ↦ rw t (
          prepend-IsSession _ _ (
            and_then-IsSession (pty_kill s) _ (pty_kill-IsSession s w) (
              send-IsSession e (pty_kill s).session Message.shell_closed (pty_kill-IsSession s w))))
    ]

    go : (o : Option ℕ) → IsSession (close_exec e s o).session
    go none = legacy s.pty
    go (some proc) =
        prepend-IsSession (closed proc ∷ [])
          (and_then (exec_kill s) (λ t. send e t Message.shell_closed))
          (and_then-IsSession (exec_kill s) (λ t. send e t Message.shell_closed)
            (exec_kill-IsSession s w)
            (send-IsSession e (exec_kill s).session Message.shell_closed (exec_kill-IsSession s w)))

pub pty_close-IsSession : (s : Session) → IsSession s → IsSession (pty_close s).session
unfolding pty_close
pty_close-IsSession s w = go s.pty
  where
    go : (o : Option PtySlot) → IsSession (close_dedicated s o).session
    go none = w
    go (some slot) = elim (Bool-cases slot.legacy) [
      | inl t ↦ rw t w
      | inr n ↦
          rw n (prepend-IsSession (closed slot.proc ∷ []) (pty_kill s) (pty_kill-IsSession s w))
    ]

pub shell_input-IsSession :
    (s : Session) (bytes : Bytes) → IsSession s → IsSession (shell_input s bytes).session
unfolding shell_input
shell_input-IsSession s bytes w = go s.exec
  where
    legacy : (o : Option PtySlot) → IsSession (write_legacy s o bytes).session
    legacy none = w
    legacy (some slot) = elim (Bool-cases slot.legacy) [ inl t ↦ rw t w | inr n ↦ rw n w ]

    go : (o : Option ℕ) → IsSession (write_exec s o bytes).session
    go none = legacy s.pty
    go (some proc) = w

pub pty_input-IsSession :
    (e : Machine) (s : Session) (bytes : Bytes)
    → IsSession s
    → IsSession (pty_input e s bytes).session
unfolding pty_input
pty_input-IsSession e s bytes w = go s.pty
  where
    go : (o : Option PtySlot) → IsSession (write_dedicated e s o bytes).session
    go none = w
    go (some slot) = elim (Bool-cases slot.legacy) [
      | inl t ↦ rw t w
      | inr n ↦ rw n (touched-IsSession _ _ _ _ w)
    ]

pub resize_slot-IsSession :
    (e : Machine) (s : Session) (o : Option PtySlot) (cols rows : ℕ)
    → IsSession s
    → IsSession (resize_slot e s o cols rows).session
resize_slot-IsSession e s none cols rows w = w
resize_slot-IsSession e s (some slot) cols rows w = touched-IsSession _ _ _ _ w

pub clipboard_message-IsSession :
    (e : Machine) (s : Session) (m : Message)
    → IsSession s
    → IsSession (clipboard_message e s m).session
unfolding clipboard_message
clipboard_message-IsSession e s m w = go (on_message e.platform s.clipboard m)
  where
    go : (r : ClipboardSync × Answer) → IsSession (answer_clipboard e s r).session
    go (c, (none, effects)) = touched-IsSession _ _ _ _ w
    go (c, (some answer, effects)) =
        prepend-IsSession _ _
          (send-IsSession e (record s { clipboard = c }) answer (touched-IsSession _ _ _ _ w))
