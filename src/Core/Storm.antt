-- ===== src/Core/Storm.antt =====
-- crates/wiredesk-core/src/storm.rs: the counter of consecutive protocol errors, a `u32` that
-- saturates. A receiver calls it once for each error and each packet.
pub mod Runs
mod Tests
use wiredesk.Base.{ℕ, ◌+◌, Bool, leb, List, [], ◌∷◌, min}

abbrev pub default_storm_threshold : ℕ
default_storm_threshold = 10

pub record StormCounter : Type 0 where
  pub consecutive : ℕ
  pub threshold : ℕ

abbrev pub new : ℕ → StormCounter
new threshold = record { consecutive = 0; threshold = threshold }

unfoldable pub on_protocol_error : StormCounter → StormCounter × Bool
on_protocol_error c =
    let n = min (c.consecutive + 1) 4294967295 in (record c { consecutive = n }, leb c.threshold n)

unfoldable pub on_valid_packet : StormCounter → StormCounter
on_valid_packet c = record c { consecutive = 0 }

unfoldable pub count : StormCounter → ℕ
count c = c.consecutive

-- What a receiver tells the counter.
pub data Event : Type 0 where
  protocol_error valid_packet : Event

unfoldable pub step : StormCounter → Event → StormCounter
step c protocol_error = (on_protocol_error c).0
step c valid_packet = on_valid_packet c

abbrev pub run : StormCounter → List Event → StormCounter
run c [] = c
run c (e ∷ es) = run (step c e) es
