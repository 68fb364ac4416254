-- ===== src/Core/Storm/Runs.antt =====
-- When the counter signals a storm.
use wiredesk.Base.{ℕ, ◌+◌, ◌≤◌, ◌≡◌, ◌↔◌, refl, true, List, [], ◌∷◌, min, arith}
use wiredesk.Core.Storm.{
  StormCounter, new, on_protocol_error, on_valid_packet, count, Event, protocol_error, valid_packet,
  step, run,
}

-- The errors at the end of a list of events, `held` before it: those since the last packet.
abbrev pub trailing : ℕ → List Event → ℕ
trailing held [] = held
trailing held (protocol_error ∷ es) = trailing (held + 1) es
trailing held (valid_packet ∷ es) = trailing 0 es

run-counts :
    (events : List Event) (c : StormCounter) (held : ℕ)
    → c.consecutive ≡ min held 4294967295
    → (count (run c events) ≡ min (trailing held events) 4294967295)
      × ((run c events).threshold ≡ c.threshold)
unfolding count step on_protocol_error on_valid_packet
run-counts [] c held h = (h, refl)
run-counts (protocol_error ∷ es) c held h =
    run-counts es (step c protocol_error) (held + 1) (omega (arith, h))
run-counts (valid_packet ∷ es) c held h = run-counts es (step c valid_packet) 0 (omega arith)

-- With a threshold of a `u32`, after any events from a new counter, the next error signals a storm
-- exactly when the errors since the last valid packet, that error counted, are at least as many as
-- the threshold; the count is their number, held at the largest `u32`.
pub on_protocol_error_iff :
    (threshold : ℕ) (events : List Event)
    → threshold ≤ 4294967295
    → (count (run (new threshold) events) ≡ min (trailing 0 events) 4294967295)
      × (((on_protocol_error (run (new threshold) events)).1 ≡ true)
          ↔ (threshold ≤ trailing 0 events + 1))
unfolding on_protocol_error count
on_protocol_error_iff threshold events h =
    let counts = run-counts events (new threshold) 0 (omega arith) in
    (counts.0, ground (arith, counts.0, counts.1))
