-- ===== src/Core/Storm/Tests.antt =====
-- The storm counter at concrete runs.
use wiredesk.Base.{◌+◌, ◌≤◌, ◌≡◌, ◌↔◌, refl, true, List, ◌∷◌, replicate, min, arith}
use wiredesk.Core.Storm.{
  new, on_protocol_error, on_valid_packet, count, Event, protocol_error, valid_packet, step, run,
  default_storm_threshold,
}
use wiredesk.Core.Storm.Runs.{trailing, on_protocol_error_iff}

abbrev events : List Event
events = protocol_error ∷ valid_packet ∷ replicate 9 protocol_error

tenth_error : (on_protocol_error (run (new default_storm_threshold) events)).1 ≡ true
unfolding step on_protocol_error on_valid_packet
tenth_error = refl

on_protocol_error_iff_example :
    (count (run (new 10) events) ≡ min (trailing 0 events) 4294967295)
    × (((on_protocol_error (run (new 10) events)).1 ≡ true) ↔ (10 ≤ trailing 0 events + 1))
on_protocol_error_iff_example = on_protocol_error_iff 10 events (omega arith)
