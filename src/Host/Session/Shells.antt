-- ===== src/Host/Session/Shells.antt =====
-- apps/wiredesk-host/src/session.rs: the arms of `handle_packet` about the two shells.
use wiredesk.Base.{ℕ, true, false, ◌||◌, [], ◌∷◌, Option, none, some, if◌then◌else◌}
use wiredesk.Base.Bytes.{Bytes}
use wiredesk.Protocol.Message.{Message}
use wiredesk.Host.Session.{
  PtySlot, Session, Machine, spawned, closed, wrote, resized, Outcome, done, with_calls, prepend,
  and_then, send, note_pty_activity, exec_kill, pty_kill, is_some, is_legacy, warm_up, Taken,
  take_warm_or_spawn,
}

abbrev pub err_shell_busy : ℕ
err_shell_busy = 2

abbrev pub err_shell_spawn : ℕ
err_shell_spawn = 3

abbrev pub err_pty_busy : ℕ
err_pty_busy = 4

abbrev pub err_pty_spawn : ℕ
err_pty_spawn = 5

abbrev pub open_taken : Machine → Taken → Option ℕ → Outcome
open_taken e t (some proc) = prepend t.calls (warm_up e (record t.session { exec = some proc }))
open_taken e t none = prepend t.calls (send e t.session (Message.error err_shell_spawn []))

unfoldable pub shell_open : Machine → Session → Bytes → Outcome
unfolding send warm_up take_warm_or_spawn
shell_open e s shell =
    let taken = take_warm_or_spawn e s shell in
    if is_some s.exec || is_legacy s.pty
    then send e s (Message.error err_shell_busy [])
    else open_taken e taken taken.proc

abbrev pub open_legacy : Machine → Session → Option ℕ → Outcome
open_legacy e s (some proc) =
    with_calls (spawned proc ∷ []) (record s { pty = some (record { proc = proc; legacy = true }) })
open_legacy e s none = send e s (Message.error err_shell_spawn [])

unfoldable pub shell_open_pty : Machine → Session → Bytes → ℕ → ℕ → Outcome
unfolding send
shell_open_pty e s shell cols rows =
    if is_some s.pty || is_some s.exec
    then send e s (Message.error err_shell_busy [])
    else open_legacy e s (e.spawn shell (some (cols, rows)))

abbrev pub open_dedicated : Machine → Session → Option ℕ → Outcome
open_dedicated e s (some proc) =
    with_calls (spawned proc ∷ [])
      (note_pty_activity e (record s { pty = some (record { proc = proc; legacy = false }) }))
open_dedicated e s none = send e s (Message.error err_pty_spawn [])

unfoldable pub pty_open : Machine → Session → Bytes → ℕ → ℕ → Outcome
unfolding send
pty_open e s shell cols rows =
    if is_some s.pty
    then send e s (Message.error err_pty_busy [])
    else open_dedicated e s (e.spawn shell (some (cols, rows)))

abbrev pub resize_slot : Machine → Session → Option PtySlot → ℕ → ℕ → Outcome
resize_slot e s none cols rows = done s
resize_slot e s (some slot) cols rows =
    with_calls (resized slot.proc cols rows ∷ []) (note_pty_activity e s)

abbrev pub write_legacy : Session → Option PtySlot → Bytes → Outcome
write_legacy s none bytes = done s
write_legacy s (some slot) bytes =
    if slot.legacy then with_calls (wrote slot.proc bytes ∷ []) s else done s

abbrev pub write_exec : Session → Option ℕ → Bytes → Outcome
write_exec s (some proc) bytes = with_calls (wrote proc bytes ∷ []) s
write_exec s none bytes = write_legacy s s.pty bytes

unfoldable pub shell_input : Session → Bytes → Outcome
shell_input s bytes = write_exec s s.exec bytes

abbrev pub write_dedicated : Machine → Session → Option PtySlot → Bytes → Outcome
write_dedicated e s none bytes = done s
write_dedicated e s (some slot) bytes =
    if slot.legacy then done s else with_calls (wrote slot.proc bytes ∷ []) (note_pty_activity e s)

unfoldable pub pty_input : Machine → Session → Bytes → Outcome
pty_input e s bytes = write_dedicated e s s.pty bytes

-- `close` on the legacy console, and its kill.
abbrev pub close_legacy : Machine → Session → Option PtySlot → Outcome
close_legacy e s none = done s
close_legacy e s (some slot) =
    if slot.legacy
    then prepend (closed slot.proc ∷ [])
        (and_then (pty_kill s) (λ t. send e t Message.shell_closed))
    else done s

abbrev pub close_exec : Machine → Session → Option ℕ → Outcome
close_exec e s (some proc) =
    prepend (closed proc ∷ []) (and_then (exec_kill s) (λ t. send e t Message.shell_closed))
close_exec e s none = close_legacy e s s.pty

unfoldable pub shell_close : Machine → Session → Outcome
unfolding send
shell_close e s = close_exec e s s.exec

abbrev pub close_dedicated : Session → Option PtySlot → Outcome
close_dedicated s none = done s
close_dedicated s (some slot) =
    if slot.legacy then done s else prepend (closed slot.proc ∷ []) (pty_kill s)

unfoldable pub pty_close : Session → Outcome
pty_close s = close_dedicated s s.pty
