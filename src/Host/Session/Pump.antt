-- ===== src/Host/Session/Pump.antt =====
-- apps/wiredesk-host/src/session.rs: `pump_shell_events`. What a shell has handed over is a list of
-- its events, and `Pumped` has those that a later pump can still read: a slot that is cleared drops
-- its shell, and the channel with it. `exited` is what `try_exit_code` would say.
use wiredesk.Base.{
  ℕ, ◌-◌, Bool, true, not, List, [], ◌∷◌, ◌++◌, Option, none, some, ltb, ◌==◌, if◌then◌else◌,
  length,
}
use wiredesk.Base.Bytes.{Bytes}
use wiredesk.Base.Chunks.{chunks}
use wiredesk.Base.Int.{ℤ}
use wiredesk.Protocol.Message.{Message}
use wiredesk.Host.Flow.{ShellSlot, exec, pty, pump_budget, note_sent, exec_budget_at}
use wiredesk.Host.Session.{
  Session, Machine, Outcome, done, and_then, send, note_pty_activity, is_some, is_legacy, pty_proc,
}

pub data ShellEvent : Type 0 where
  output : (bytes : Bytes) → ShellEvent
  exit : (code : ℤ) → ShellEvent

-- The output, the exit code, and the events that are left.
pub record Gathered : Type 0 where
  pub out : Bytes
  pub code : Option ℤ
  pub left : List ShellEvent

-- The loop over `try_recv`: whole reads, until the budget is met.
unfoldable pub gather : ℕ → Bytes → List ShellEvent → Gathered
gather budget out [] = record { out = out; code = none; left = [] }
gather budget out (output bytes ∷ rest) =
    let more = gather budget (out ++ bytes) rest in
    if ltb (length out) budget
    then more
    else record { out = out; code = none; left = output bytes ∷ rest }
gather budget out (exit code ∷ rest) =
    if ltb (length out) budget
    then record { out = out; code = some code; left = rest }
    else record { out = out; code = none; left = exit code ∷ rest }

abbrev pub output_message : Bool → Bytes → Message
output_message legacy bytes =
    if legacy then Message.shell_output bytes else Message.pty_output bytes

abbrev pub exit_message : Bool → ℤ → Message
exit_message legacy code = if legacy then Message.shell_exit code else Message.pty_exit code

-- The pieces of the output on their way, each noted in the flow before it is sent.
unfoldable pub ship : Machine → Session → ShellSlot → Bool → List Bytes → Outcome
unfolding send and_then
ship e s slot legacy [] = done s
ship e s slot legacy (piece ∷ rest) =
    and_then
      (send e (record s { flow = note_sent s.flow slot (length piece) e.now })
        (output_message legacy piece))
      (λ t. ship e t slot legacy rest)

abbrev pub split_shell_output : Bytes → List Bytes
split_shell_output chunk = chunks (length chunk) 4096 chunk

abbrev pub clear : ShellSlot → Session → Session
clear exec s = record s { exec = none }
clear pty s = record s { pty = none }

-- The end of `pump_slot`, with the exit code.
abbrev pub report_exit : Machine → Session → ShellSlot → Bool → Option ℤ → Outcome
report_exit e s slot legacy none = done s
report_exit e s slot legacy (some code) = send e (clear slot s) (exit_message legacy code)

abbrev pub or_exited : Option ℤ → Option ℤ → Option ℤ
or_exited (some code) exited = some code
or_exited none exited = exited

-- Output of a console counts as use.
abbrev pub mark_use : Machine → ShellSlot → Bytes → Session → Session
mark_use e exec out s = s
mark_use e pty out s = if length out == 0 then s else note_pty_activity e s

abbrev pub proc_of : ShellSlot → Session → Option ℕ
proc_of exec s = s.exec
proc_of pty s = pty_proc s.pty

abbrev pub speaks_legacy : ShellSlot → Session → Bool
speaks_legacy exec s = true
speaks_legacy pty s = is_legacy s.pty

-- How long an open console has been silent.
abbrev pub quiet_for : Machine → Session → Option ℕ
quiet_for e s = if is_some s.pty then some (e.now - s.pty_last_activity) else none

abbrev pub budget_of : Machine → Session → ShellSlot → Bool → ℕ
budget_of e s pty buffers = pump_budget
budget_of e s exec buffers = exec_budget_at s.flow (quiet_for e s) buffers

pub record Pumped : Type 0 where
  pub outcome : Outcome
  pub left : List ShellEvent

-- `pump_slot` behind the loop.
unfoldable pub deliver_output : Machine → Session → ShellSlot → Gathered → Option ℤ → Outcome
unfolding ship and_then send
deliver_output e s slot g exited =
    let legacy = speaks_legacy slot s in
    and_then (ship e s slot legacy (split_shell_output g.out))
      (λ t. report_exit e (mark_use e slot g.out t) slot legacy (or_exited g.code exited))

-- The channel goes with the slot.
abbrev pub unread : ShellSlot → Session → List ShellEvent → List ShellEvent
unread slot s left = if is_some (proc_of slot s) then left else []

unfoldable pub pump_slot :
    Machine → Session → ShellSlot → Bool → List ShellEvent → Option ℤ → Pumped
unfolding gather deliver_output
pump_slot e s slot buffers events exited =
    let budget = budget_of e s slot buffers in
    let g = gather budget [] events in
    let delivered = deliver_output e s slot g exited in
    let idle : Pumped = record { outcome = done s; left = events } in
    if budget == 0
    then idle
    else if not (is_some (proc_of slot s))
    then idle
    else record { outcome = delivered; left = unread slot delivered.session g.left }
