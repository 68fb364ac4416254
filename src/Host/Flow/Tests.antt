-- ===== src/Host/Flow/Tests.antt =====
-- Runs of the flow.
use wiredesk.Base.{◌≡◌, ◌<◌, ◌≤◌, refl, true, false, [], ◌++◌, some, length, drop, replicate, arith}
use wiredesk.Host.Flow.{
  exec, pty, ShellFlow, new, note_sent, on_report, exec_in_flight, pacing, release_if_stalled,
  exec_budget_at, drop_confirmed_exec, inflight_exec_budget, exec_pump_budget,
  heartbeat_timeout_for,
}
use wiredesk.Host.Flow.Tape.{Tape, execs}
use wiredesk.Host.Flow.Live.{Reach, here, sent, reported, exec_in_flight-execs, exec_budget_at-pos}

-- Three bytes of the pty and four of exec, of which the client has reported five.
abbrev flow : ShellFlow
flow = (on_report (note_sent (note_sent (new 0) pty 3 10) exec 4 20) 5 30).0

abbrev tape : Tape
tape = ([] ++ replicate 3 pty) ++ replicate 4 exec

flow-Reach : Reach 0 flow tape
flow-Reach = reported 5 30 (sent exec 4 20 (omega arith) (sent pty 3 10 (omega arith) here))

flow_in_flight : exec_in_flight flow ≡ 2
unfolding exec_in_flight on_report note_sent drop_confirmed_exec
flow_in_flight = refl

flow_budget : exec_budget_at flow (some 5) true ≡ 16382
unfolding exec_budget_at exec_in_flight on_report note_sent drop_confirmed_exec pacing
    inflight_exec_budget
flow_budget = refl

quiet_budget : exec_budget_at flow (some 2000) false ≡ 65536
unfolding exec_budget_at exec_pump_budget on_report note_sent pacing
quiet_budget = refl

busy_timeout : heartbeat_timeout_for false true ≡ 30000
unfolding heartbeat_timeout_for
busy_timeout = refl

exec_in_flight-execs_example :
    (exec_in_flight flow ≡ execs (drop flow.acked tape))
    × (flow.acked ≤ length tape)
    × (flow.sent ≡ length tape)
exec_in_flight-execs_example = exec_in_flight-execs flow-Reach

exec_budget_at-pos_example : 0 < exec_budget_at (release_if_stalled flow 1030).0 (some 5) true
unfolding on_report note_sent
exec_budget_at-pos_example = exec_budget_at-pos 1030 (some 5) true flow-Reach (omega arith)
