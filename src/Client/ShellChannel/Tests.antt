-- ===== src/Client/ShellChannel/Tests.antt =====
-- The claims on the shell channel at concrete runs.
use wiredesk.Base.{◌≤◌, ◌≡◌, refl, false, List, [], ◌∷◌, arith}
use wiredesk.Client.ShellChannel.{
  exec, interactive, owner, try_acquire, System, Event, acquire, drop_guard, release, step, run,
  start,
}
use wiredesk.Client.ShellChannel.Claims.{execs, consoles, IsCounted}
use wiredesk.Client.ShellChannel.Runs.{run-IsCounted, owner_of, owner-run, Exclusive, run-Exclusive}

-- Two exec runs, a console that is refused, and the end of both runs; then the console.
abbrev events : List Event
events =
    acquire exec false
    ∷ acquire exec false
    ∷ acquire interactive false
    ∷ drop_guard 0
    ∷ drop_guard 0
    ∷ acquire interactive false
    ∷ []

run-events : (run start events).guards ≡ interactive ∷ []
unfolding step try_acquire release
run-events = refl

run-IsCounted_example : IsCounted (run start events) × (consoles (run start events).guards ≤ 1)
run-IsCounted_example = run-IsCounted events (omega arith)

owner-run_example :
    owner (run start events).channel
    ≡ owner_of (execs (run start events).guards) (consoles (run start events).guards)
owner-run_example = owner-run events (omega arith)

run-Exclusive_example : Exclusive (run start events).guards
run-Exclusive_example =
    run-Exclusive events (refl, (refl, (refl, (tt, (tt, (refl, tt)))))) (omega arith)

abbrev one_run : System
one_run = record { channel = record { exec_refs = 1; is_interactive = false }; guards = exec ∷ [] }
