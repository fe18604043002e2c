-- ===== src/Redis/Clock.antt =====
-- The idle time that the eviction compares.
use frozen_hot.Base.{ℕ, ◌+◌, ◌/◌, ◌≤◌, ◌<◌, ◌^◌, if◌then◌else◌, ◌==◌, Bool-cases, inl, inr, arith}
use frozen_hot.Redis.{estimate_object_idle_time, to_unsigned}

-- Of two objects, touched at `early` and later, but less than 2^32 microseconds later, at `late`,
-- the one touched later counts as no more idle if the clock did not pass a multiple of 2^32
-- microseconds between, and else as no less idle, so that the older one looks the fresher. The
-- clock is past its first 2^32 microseconds.
pub estimate_order :
    (early late now : ℕ)
    → early ≤ late
    → late < early + 2 ^ 32
    → late ≤ now
    → 2 ^ 32 ≤ now
    → (if early / 2 ^ 32 == late / 2 ^ 32
        then estimate_object_idle_time now (to_unsigned late)
          ≤ estimate_object_idle_time now (to_unsigned early)
        else estimate_object_idle_time now (to_unsigned early)
          ≤ estimate_object_idle_time now (to_unsigned late))
unfolding estimate_object_idle_time
estimate_order early late now le short until past =
    elim (Bool-cases (early / 2 ^ 32 == late / 2 ^ 32)) [
      | inl same ↦ rw same (ground arith)
      | inr over ↦ rw over (ground arith)
    ]
