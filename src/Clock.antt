-- ===== src/Clock.antt =====
-- The monotonic clock as source/wei_poll.c, source/wei_infer.c and source/wei_life.c read it: each has
-- the same static function.
use wei.Base.{ℕ, ◌+◌, ◌*◌, ◌/◌, ◌≤◌, ◌<◌, ◌^◌, arith}

-- `struct timespec` of a clock that counts from the start of the system, so that `tv_sec` is not
-- negative.
pub record Timespec : Type 0 where
  pub tv_sec : ℕ
  pub tv_nsec : ℕ

-- `wei_now_ms`, `wei_infer_now_ms` and `wei_life_now_ms`.
unfoldable pub now_ms : Timespec → ℕ
now_ms ts = ts.tv_sec * 1000 + ts.tv_nsec / 1000000

abbrev pub infer_now_ms : Timespec → ℕ
infer_now_ms = now_ms

abbrev pub life_now_ms : Timespec → ℕ
life_now_ms = now_ms

abbrev pub nanoseconds : Timespec → ℕ
nanoseconds ts = ts.tv_sec * 1000000000 + ts.tv_nsec

-- The milliseconds read are those that have passed, rounded down, they do not go back while the clock
-- does not, and they fit an `int64_t` for 2^53 s.
pub now_ms_bounds :
    (s t : Timespec)
    → s.tv_nsec < 1000000000
    → t.tv_nsec < 1000000000
    → t.tv_sec < 2 ^ 53
    → nanoseconds s ≤ nanoseconds t
    → (now_ms s ≤ now_ms t)
      × (now_ms t * 1000000 ≤ nanoseconds t)
      × (nanoseconds t < (now_ms t + 1) * 1000000)
      × (now_ms t < 2 ^ 63)
unfolding now_ms
now_ms_bounds s t p q small later = (omega arith, omega arith, omega arith, omega arith)
