-- ===== src/Transport/Reconnect.antt =====
-- crates/wiredesk-transport/src/bluetooth/reconnect.rs: how long to wait before a retry, in seconds,
-- and whether to retry.
pub mod Schedule
mod Tests
use wiredesk.Base.{ℕ, zero, suc, ◌+◌, Bool, ◌||◌, List, [], ◌∷◌, ltb, ◌==◌, if◌then◌else◌}

unfoldable pub next_backoff : ℕ → ℕ
next_backoff attempt =
    if attempt == 0
    then 0
    else if attempt == 1
    then 2
    else if attempt == 2
    then 4
    else if attempt == 3
    then 8
    else if attempt == 4
    then 16
    else 30

unfoldable pub should_retry : ℕ → ℕ → Bool
should_retry attempt max_attempts = (max_attempts == 0) || ltb attempt max_attempts
