-- ===== src/Transport/Reconnect/Schedule.antt =====
-- What the schedule of retries amounts to.
use wiredesk.Base.{ℕ, zero, suc, ◌^◌, ◌<◌, ◌≡◌, refl, min, arith}
use wiredesk.Transport.Reconnect.{next_backoff}

power-pos : (n : ℕ) → 0 < 2 ^ n
power-pos zero = omega arith
power-pos (suc n) = omega (arith, power-pos n)

-- The first attempt is made at once; the wait before each later one is 2 to the power of its
-- number, in seconds, and 30 seconds where that is more.
pub next_backoff_lem :
    (attempt : ℕ) → (next_backoff 0 ≡ 0) × (next_backoff (suc attempt) ≡ min 30 (2 ^ suc attempt))
unfolding next_backoff
next_backoff_lem zero = (refl, refl)
next_backoff_lem (suc zero) = (refl, refl)
next_backoff_lem (suc (suc zero)) = (refl, refl)
next_backoff_lem (suc (suc (suc zero))) = (refl, refl)
next_backoff_lem (suc (suc (suc (suc n)))) = (refl, ground (arith, power-pos n))
