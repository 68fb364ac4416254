-- ===== src/Host/Session.antt =====
-- apps/wiredesk-host/src/session.rs: the session's state and its helpers. A process is a number. A
-- `Machine` says how each call of the transport, the injector and the shells would end; the calls
-- that were made are a list. The texts of errors and of `Error` messages are left out (`[]`).
pub mod Shells
pub mod Handler
pub mod Accounts
pub mod Ledger
pub mod Conserved
pub mod Slots
pub mod Closing
pub mod Reachable
pub mod Pump
pub mod Told
pub mod Gathering
pub mod Shipped
pub mod Output
pub mod Tick
pub mod Ticks
mod Tests
use wiredesk.Base.{
  ℕ, ◌+◌, ◌%◌, Bool, true, false, not, ◌&&◌, ◌||◌, List, [], ◌∷◌, ◌++◌, Option, none, some, ltb,
  ◌==◌, if◌then◌else◌,
}
use wiredesk.Base.Bytes.{Bytes}
use wiredesk.Protocol.Message.{Message}
use wiredesk.Host.Flow.{ShellFlow, new}
use wiredesk.Host.Clipboard.{ClipboardSync}
use wiredesk.Host.Clipboard.Incoming.{Platform, Effect, reset}

pub data SessionState : Type 0 where
  waiting_for_hello connected disconnected : SessionState

pub record PtySlot : Type 0 where
  pub proc : ℕ
  pub legacy : Bool

pub record Session : Type 0 where
  pub state : SessionState
  pub seq : ℕ
  pub last_heartbeat_sent : ℕ
  pub last_heartbeat_recv : ℕ
  pub host_name : Bytes
  pub screen_w : ℕ
  pub screen_h : ℕ
  pub exec : Option ℕ
  pub pty : Option PtySlot
  pub pty_last_activity : ℕ
  pub flow : ShellFlow
  pub warm : Option (List Bytes × ℕ)
  pub warm_enabled : Bool
  pub clipboard : ClipboardSync
  pub client_name : Option Bytes

pub record Machine : Type 0 where
  pub now : ℕ
  -- Whether the packet with this number is sent.
  pub sends : ℕ → Bool
  pub injects : Message → Bool
  pub releases : Bool
  pub shell_argv : Bytes → List Bytes
  -- The process that a start of this shell would give, in a console of this size.
  pub spawn : Bytes → Option (ℕ × ℕ) → Option ℕ
  -- The process that `warm_up` would start.
  pub spawn_warm : Option ℕ
  pub platform : Platform

pub data Call : Type 0 where
  sent : (seq : ℕ) (msg : Message) → Call
  injected : (input : Message) → Call
  released : Call
  spawned killed closed drained : (proc : ℕ) → Call
  wrote : (proc : ℕ) (bytes : Bytes) → Call
  resized : (proc cols rows : ℕ) → Call
  browser_reset : Call
  dispatched : (msg : Message) → Call
  clipboard_call : (effect : Effect) → Call

-- The state behind some code, its calls, and whether it went on to its end (`false` is `Err`).
pub record Outcome : Type 0 where
  pub session : Session
  pub calls : List Call
  pub ok : Bool

abbrev pub done : Session → Outcome
done s = record { session = s; calls = []; ok = true }

abbrev pub with_calls : List Call → Session → Outcome
with_calls calls s = record { session = s; calls = calls; ok = true }

-- Calls, and the code behind them.
unfoldable pub prepend : List Call → Outcome → Outcome
prepend calls o = record { session = o.session; calls = calls ++ o.calls; ok = o.ok }

-- `?` between two parts of a function.
unfoldable pub and_then : Outcome → (Session → Outcome) → Outcome
unfolding prepend
and_then o next = if o.ok then prepend o.calls (next o.session) else o

unfoldable pub send : Machine → Session → Message → Outcome
send e s msg = record {
  session = record s { seq = (s.seq + 1) % 65536 };
  calls = sent s.seq msg ∷ [];
  ok = e.sends s.seq;
}

abbrev pub note_pty_activity : Machine → Session → Session
note_pty_activity e s = record s { pty_last_activity = e.now }

abbrev pub kill_calls : Option ℕ → List Call
kill_calls none = []
kill_calls (some proc) = killed proc ∷ []

abbrev pub pty_proc : Option PtySlot → Option ℕ
pty_proc none = none
pty_proc (some slot) = some slot.proc

abbrev pub warm_proc : Option (List Bytes × ℕ) → Option ℕ
warm_proc none = none
warm_proc (some (argv, proc)) = some proc

abbrev pub exec_kill : Session → Outcome
exec_kill s = with_calls (kill_calls s.exec) (record s { exec = none })

abbrev pub pty_kill : Session → Outcome
pty_kill s = with_calls (kill_calls (pty_proc s.pty)) (record s { pty = none })

abbrev pub warm_kill : Session → Outcome
warm_kill s = with_calls (kill_calls (warm_proc s.warm)) (record s { warm = none })

unfoldable pub kill_all_shells : Session → Outcome
kill_all_shells s = record {
  session = record s { exec = none; pty = none };
  calls = kill_calls s.exec ++ kill_calls (pty_proc s.pty) ++ browser_reset ∷ [];
  ok = true;
}

abbrev pub clipboard_calls : List Effect → List Call
clipboard_calls [] = []
clipboard_calls (effect ∷ rest) = clipboard_call effect ∷ clipboard_calls rest

unfoldable pub reset_clipboard : Session → Outcome
reset_clipboard s = record {
  session = record s { clipboard = (reset s.clipboard).0 };
  calls = clipboard_calls (reset s.clipboard).1;
  ok = true;
}

abbrev pub is_some {ℓ} : {A : Type ℓ} → Option A → Bool
is_some none = false
is_some (some a) = true

abbrev pub is_legacy : Option PtySlot → Bool
is_legacy none = false
is_legacy (some slot) = slot.legacy

abbrev pub is_dedicated : Option PtySlot → Bool
is_dedicated none = false
is_dedicated (some slot) = not slot.legacy

-- What `warm_up` makes of a start.
abbrev pub keep_warm : Machine → Session → Option ℕ → Outcome
keep_warm e s none = done s
keep_warm e s (some proc) =
    with_calls (spawned proc ∷ []) (record s { warm = some (e.shell_argv [], proc) })

unfoldable pub warm_up : Machine → Session → Outcome
warm_up e s = if not s.warm_enabled || is_some s.warm then done s else keep_warm e s e.spawn_warm

abbrev pub same_bytes : Bytes → Bytes → Bool
same_bytes [] [] = true
same_bytes (a ∷ s) (b ∷ t) = (a == b) && same_bytes s t
same_bytes _ _ = false

abbrev pub same_argv : List Bytes → List Bytes → Bool
same_argv [] [] = true
same_argv (a ∷ s) (b ∷ t) = same_bytes a b && same_argv s t
same_argv _ _ = false

abbrev pub warm_matches : List Bytes → Option (List Bytes × ℕ) → Option ℕ
warm_matches want none = none
warm_matches want (some (argv, proc)) = if same_argv argv want then some proc else none

pub record Taken : Type 0 where
  pub session : Session
  pub calls : List Call
  pub proc : Option ℕ

abbrev pub take_spawned : Session → Option ℕ → Taken
take_spawned s none = record { session = s; calls = []; proc = none }
take_spawned s (some proc) = record { session = s; calls = spawned proc ∷ []; proc = some proc }

abbrev pub take_warm : Machine → Session → Bytes → Option ℕ → Taken
take_warm e s requested none = take_spawned s (e.spawn requested none)
take_warm e s requested (some proc) = record {
  session = record s { warm = none };
  calls = drained proc ∷ [];
  proc = some proc;
}

unfoldable pub take_warm_or_spawn : Machine → Session → Bytes → Taken
take_warm_or_spawn e s requested =
    take_warm e s requested (warm_matches (e.shell_argv requested) s.warm)
