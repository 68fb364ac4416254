-- ===== src/Host/Flow.antt =====
-- apps/wiredesk-host/src/session.rs: `ShellFlow`, which follows the shell output on its way to the
-- client, and the budgets of the exec slot. Instants and durations are milliseconds;
-- `saturating_duration_since` and `saturating_sub` stop at 0, as `-` does.
pub mod Tape
pub mod Tracked
pub mod Live
mod Tests
use wiredesk.Base.{
  ℕ, ◌+◌, ◌-◌, ◌*◌, ◌%◌, min, max, Bool, true, false, not, ◌&&◌, List, [], ◌∷◌, ◌++◌, Option, none,
  some, ltb, leb, ◌==◌, if◌then◌else◌,
}

pub data ShellSlot : Type 0 where
  exec pty : ShellSlot

abbrev pub pump_budget : ℕ
pump_budget = 65536

abbrev pub pump_budget_exec_shared : ℕ
pump_budget_exec_shared = 16384

abbrev pub pty_quiet_before_full_exec : ℕ
pty_quiet_before_full_exec = 2000

abbrev pub exec_inflight_cap : ℕ
exec_inflight_cap = pump_budget_exec_shared

abbrev pub rx_progress_stall : ℕ
rx_progress_stall = 1000

pub record ShellFlow : Type 0 where
  pub sent : ℕ
  pub acked : ℕ
  pub exec_pending : List (ℕ × ℕ)
  pub peer_reports : Bool
  pub stalled : Bool
  pub last_progress : ℕ
  pub unacked_since : Option ℕ

abbrev pub new : ℕ → ShellFlow
new now = record {
  sent = 0;
  acked = 0;
  exec_pending = [];
  peer_reports = false;
  stalled = false;
  last_progress = now;
  unacked_since = none;
}

-- The places of `exec_pending` that a send adds.
abbrev pub exec_send : ShellSlot → ℕ → ℕ → List (ℕ × ℕ)
exec_send exec end bytes = (end, bytes) ∷ []
exec_send pty end bytes = []

-- `sent` is a `u64`.
unfoldable pub note_sent : ShellFlow → ShellSlot → ℕ → ℕ → ShellFlow
note_sent f slot bytes now =
    let end = (f.sent + bytes) % 18446744073709551616 in
    if bytes == 0 then f else record f {
      sent = end;
      exec_pending = f.exec_pending ++ exec_send slot end bytes;
      unacked_since = if f.sent == f.acked then some now else f.unacked_since;
    }

-- `drop_confirmed_exec`: the front of the queue, while it ends at or before `acked`.
unfoldable pub drop_confirmed_exec : ℕ → List (ℕ × ℕ) → List (ℕ × ℕ)
drop_confirmed_exec acked [] = []
drop_confirmed_exec acked ((end, len) ∷ rest) =
    let fewer = drop_confirmed_exec acked rest in if leb end acked then fewer else (end, len) ∷ rest

-- The part of `on_report` under `if confirmed > self.acked`.
unfoldable pub confirm : ShellFlow → ℕ → ℕ → ShellFlow
confirm f confirmed now =
    if ltb f.acked confirmed
    then record f {
      acked = confirmed;
      exec_pending = drop_confirmed_exec confirmed f.exec_pending;
      last_progress = now;
      stalled = false;
    }
    else f

-- The end of `on_report`: nothing is waited for once all is confirmed.
unfoldable pub caught_up : ShellFlow → ShellFlow
caught_up f = record f { unacked_since = if f.acked == f.sent then none else f.unacked_since }

unfoldable pub on_report : ShellFlow → ℕ → ℕ → ShellFlow × Bool
unfolding confirm caught_up
on_report f bytes now = (
  caught_up (confirm (record f { peer_reports = true }) (min bytes f.sent) now),
  not f.peer_reports,
)

-- `end - self.acked` of `u64`s.
abbrev pub sub_u64 : ℕ → ℕ → ℕ
sub_u64 a b = if leb b a then a - b else a + 18446744073709551616 - b

abbrev pub sum_pending : ℕ → List (ℕ × ℕ) → ℕ
sum_pending acked [] = 0
sum_pending acked ((end, len) ∷ rest) = min len (sub_u64 end acked) + sum_pending acked rest

unfoldable pub exec_in_flight : ShellFlow → ℕ
exec_in_flight f = sum_pending f.acked f.exec_pending

unfoldable pub pacing : ShellFlow → Bool
pacing f = f.peer_reports && not f.stalled

abbrev pub release_since : ShellFlow → ℕ → Option ℕ → ShellFlow × Bool
release_since f now none = (f, false)
release_since f now (some since) =
    if ltb (now - max since f.last_progress) rx_progress_stall then (f, false) else (
      record f { acked = f.sent; exec_pending = []; unacked_since = none; stalled = true },
      true,
    )

unfoldable pub release_if_stalled : ShellFlow → ℕ → ShellFlow × Bool
release_if_stalled f now = release_since f now f.unacked_since

unfoldable pub inflight_exec_budget : ℕ → ℕ
inflight_exec_budget in_flight = exec_inflight_cap - in_flight

unfoldable pub exec_pump_budget : Option ℕ → ℕ
exec_pump_budget none = pump_budget
exec_pump_budget (some quiet) =
    if ltb quiet pty_quiet_before_full_exec then pump_budget_exec_shared else pump_budget

abbrev pub is_open : Option ℕ → Bool
is_open none = false
is_open (some quiet) = true

-- `Session::exec_budget_at`. `quiet_for` is how long an open pty has been silent.
unfoldable pub exec_budget_at : ShellFlow → Option ℕ → Bool → ℕ
unfolding exec_in_flight pacing inflight_exec_budget exec_pump_budget
exec_budget_at f quiet_for buffers_sends =
    if is_open quiet_for && pacing f && buffers_sends
    then inflight_exec_budget (exec_in_flight f)
    else exec_pump_budget quiet_for

unfoldable pub heartbeat_timeout_for : Bool → Bool → ℕ
heartbeat_timeout_for clipboard_busy shell_open =
    if clipboard_busy then 30000 else if shell_open then 30000 else 6000
