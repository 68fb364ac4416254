-- ===== src/Host/Session/Tests.antt =====
-- Runs of the session.
use wiredesk.Base.{
  ℕ, ◌+◌, ◌≡◌, refl, true, false, List, [], ◌∷◌, ◌++◌, Option, none, some, All, arith,
}
use wiredesk.Base.Bytes.{Bytes}
use wiredesk.Protocol.Message.{Message}
use wiredesk.Host.Flow.{
  ShellSlot, new, note_sent, exec_budget_at, exec_in_flight, pacing, inflight_exec_budget,
}
use wiredesk.Base.Int.{pos}
use wiredesk.Host.Clipboard.{LastKind, transfer_in_flight}
use wiredesk.Host.Session.{
  waiting_for_hello, connected, Session, Machine, Call, sent, killed, wrote, send, prepend,
  and_then,
}
use wiredesk.Host.Session.Shells.{shell_close, shell_input}
use wiredesk.Host.Session.Handler.{handle_packet, handle_connected, time_out}
use wiredesk.Host.Session.Accounts.{held, started, ended}
use wiredesk.Host.Session.Conserved.{Event, packet, looked, history, history-held}
use wiredesk.Host.Session.Slots.{IsSession}
use wiredesk.Host.Session.Pump.{
  ShellEvent, output, exit, proc_of, unread, pump_slot, gather, deliver_output, ship,
}
use wiredesk.Host.Session.Told.{shell_bytes, exits_of, IsReported, IsSpoken}
use wiredesk.Host.Session.Gathering.{output_of}
use wiredesk.Host.Session.Output.{pump_slot-outputs, pump_slot-cuts}
use wiredesk.Host.Session.Tick.{Found}
use wiredesk.Host.Session.Ticks.{ticks, ticks-IsSession}
use wiredesk.Host.Session.Reachable.{IsExecWrite, IsPtyWrite, handle_packet-writes, time_out-ends}

-- A machine that starts process 7 for a console, and 5 for a command.
abbrev machine : ℕ → Machine
machine now = record {
  now = now;
  sends = λ n. true;
  injects = λ m. true;
  releases = true;
  shell_argv = λ s. s ∷ [];
  spawn = started_as;
  spawn_warm = some 9;
  platform = record {
    hash_bytes = λ b. 0;
    decode_png_to_rgba = λ b. none;
    sets_text = λ t. true;
    sets_image = λ i. true;
    resolve_cache_dir = [];
    creates_dir = λ d. true;
    writes_file = λ f c. true;
    sets_cf_hdrop = λ f. true;
    chars = λ t. t;
    is_whitespace = λ c. false;
  };
}
  where
    started_as : Bytes → Option (ℕ × ℕ) → Option ℕ
    started_as shell none = some 5
    started_as shell (some dims) = some 7

abbrev fresh : Session
fresh = record {
  state = waiting_for_hello;
  seq = 0;
  last_heartbeat_sent = 0;
  last_heartbeat_recv = 0;
  host_name = [];
  screen_w = 100;
  screen_h = 50;
  exec = none;
  pty = none;
  pty_last_activity = 0;
  flow = new 0;
  warm = none;
  warm_enabled = false;
  clipboard = wiredesk.Host.Clipboard.new true LastKind.nothing 0 true 0;
  client_name = none;
}

-- A handshake, a console, a command, bytes for both, and silence.
abbrev events : List (Machine × Event)
events =
    (machine 10, packet (Message.hello 1 []))
    ∷ (machine 20, packet (Message.pty_open [] 80 24))
    ∷ (machine 30, packet (Message.shell_open []))
    ∷ (machine 40, packet (Message.shell_input (1 ∷ [])))
    ∷ (machine 50, packet (Message.pty_input (2 ∷ [])))
    ∷ (machine 40000, looked)
    ∷ []

abbrev busy : Session
busy = record fresh {
  state = connected;
  exec = some 5;
  pty = some (record { proc = 7; legacy = false });
}

input_routed :
    (handle_packet (machine 40) busy (Message.shell_input (1 ∷ []))).calls ≡ wrote 5 (1 ∷ []) ∷ []
unfolding handle_packet handle_connected shell_input
input_routed = refl

closed_answered :
    (handle_packet (machine 40) busy Message.shell_close).calls
    ≡ Call.closed 5 ∷ killed 5 ∷ sent 0 Message.shell_closed ∷ []
unfolding handle_packet handle_connected shell_close send prepend and_then
closed_answered = refl

history-held_example :
    held 5 (history fresh events).0 + ended 5 (history fresh events).1
    ≡ held 5 fresh + started 5 (history fresh events).1
history-held_example = history-held 5 fresh events

handle_packet-writes_example :
    All
      (IsExecWrite busy (1 ∷ []))
      (handle_packet (machine 40) busy (Message.shell_input (1 ∷ []))).calls
    × All
        (IsPtyWrite busy (1 ∷ []))
        (handle_packet (machine 40) busy (Message.pty_input (1 ∷ []))).calls
handle_packet-writes_example = handle_packet-writes (machine 40) busy (1 ∷ [])

time_out-ends_example :
    ((time_out (machine 40000) busy).session.state ≡ waiting_for_hello)
    × (held 5 (time_out (machine 40000) busy).session ≡ 0)
    × (transfer_in_flight (time_out (machine 40000) busy).session.clipboard ≡ false)
time_out-ends_example = time_out-ends (machine 40000) busy 5 refl (omega arith) refl

-- Two reads of a command, and its exit.
abbrev reads : List ShellEvent
reads = output (1 ∷ 2 ∷ []) ∷ output (3 ∷ []) ∷ exit (pos 0) ∷ []

pump_together :
    (deliver_output (machine 60) busy ShellSlot.exec (gather 100 [] reads) none).calls
    ≡ sent 0 (Message.shell_output (1 ∷ 2 ∷ 3 ∷ [])) ∷ sent 1 (Message.shell_exit (pos 0)) ∷ []
unfolding deliver_output gather ship send prepend and_then note_sent
pump_together = refl

pump_slot-outputs_example :
    (let pumped = pump_slot (machine 60) busy ShellSlot.exec false reads none in
      (late : List ShellEvent) × (shell_bytes pumped.outcome.calls ++ output_of late
        ≡ 1 ∷ 2 ∷ 3 ∷ [])
      × (pumped.left ≡ unread ShellSlot.exec pumped.outcome.session late)
      × IsReported
          (exits_of pumped.outcome.calls)
          (some 5)
          (proc_of ShellSlot.exec pumped.outcome.session)
      × All (IsSpoken true) pumped.outcome.calls)
pump_slot-outputs_example =
    pump_slot-outputs (machine 60) busy ShellSlot.exec false reads none (λ n. refl) refl

-- A console is open, and 4 bytes more may be on their way to the peer.
abbrev nearly_full : Session
nearly_full = record busy {
  flow = record (new 0) { sent = 16380; exec_pending = (16380, 16380) ∷ []; peer_reports = true };
}

pump_slot-cuts_example :
    (let pumped =
        pump_slot
          (machine 60)
          nearly_full
          ShellSlot.exec
          true
          (output (1 ∷ 2 ∷ []) ∷ output (3 ∷ 4 ∷ 5 ∷ []) ∷ output (6 ∷ []) ∷ [])
          (some (pos 0)) in
      (shell_bytes pumped.outcome.calls ≡ 1 ∷ 2 ∷ 3 ∷ 4 ∷ 5 ∷ [])
      × (pumped.left ≡ [])
      × (proc_of ShellSlot.exec pumped.outcome.session ≡ none))
unfolding exec_budget_at exec_in_flight pacing inflight_exec_budget
pump_slot-cuts_example =
    pump_slot-cuts (machine 60) nearly_full ShellSlot.exec true ((1 ∷ 2 ∷ []) ∷ []) (3 ∷ 4 ∷ 5 ∷ [])
      (output (6 ∷ []) ∷ []) (pos 0) (λ n. refl) refl (omega arith) (omega arith)

abbrev found : Found
found = record {
  buffers_sends = false;
  pty_events = [];
  exec_events = reads;
  pty_exited = none;
  exec_exited = none;
  browser = none;
  clipboard = record {
    hash_bytes = λ b. 0;
    encode_rgba_to_png = λ i. none;
    get_text = none;
    get_image = none;
    clipboard_seq = 0;
    poll_cf_hdrop = none;
  };
  arrived = Message.hello 1 [] ∷ [];
}

ticks-IsSession_example : IsSession (ticks fresh ((machine 10, found) ∷ (machine 20, found) ∷ []))
ticks-IsSession_example =
    ticks-IsSession fresh ((machine 10, found) ∷ (machine 20, found) ∷ []) refl refl
