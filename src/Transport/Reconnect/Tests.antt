-- ===== src/Transport/Reconnect/Tests.antt =====
-- The schedule of retries at concrete attempts.
use wiredesk.Base.{◌≡◌, ◌^◌, refl, min, true, false}
use wiredesk.Transport.Reconnect.{next_backoff, should_retry}
use wiredesk.Transport.Reconnect.Schedule.{next_backoff_lem}

retries_stop : should_retry 7 7 ≡ false
unfolding should_retry
retries_stop = refl

retries_never_stop : should_retry 7 0 ≡ true
unfolding should_retry
retries_never_stop = refl

next_backoff_lem_example : (next_backoff 0 ≡ 0) × (next_backoff 7 ≡ min 30 (2 ^ 7))
next_backoff_lem_example = next_backoff_lem 6
