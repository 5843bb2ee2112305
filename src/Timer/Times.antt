-- ===== src/Timer/Times.antt =====
-- Times of timer.rs and of the waits of kobject.rs.
use ksync.Base.{ℕ, ◌+◌, ◌*◌, ◌/◌, ◌^◌, ◌≤◌, ◌<◌, ◌≡◌, arith}
use ksync.Object.Wait.{neg64, div64, due_from_nanos}
use ksync.Timer.{due_from_millis, period_millis}

-- For a delay below 2^63 * 100 ns, the due time of a timer is minus ten thousand 100 ns ticks for
-- each whole millisecond: at most the delay asked for, and less than a millisecond short of it.
pub due_from_millis_bounds :
    (nanos : ℕ)
    → nanos < 2 ^ 63 * 100
    → (neg64 (due_from_millis nanos) ≡ nanos / 1_000_000 * 10_000)
      × (neg64 (due_from_millis nanos) * 100 ≤ nanos)
      × (nanos < neg64 (due_from_millis nanos) * 100 + 1_000_000)
unfolding due_from_millis neg64
due_from_millis_bounds nanos h = omega arith

-- For a delay below 2^63 ns, the time limit of a wait or a sleep is minus the delay in 100 ns
-- ticks, rounded down.
pub due_from_nanos_bounds :
    (nanos : ℕ)
    → nanos < 2 ^ 63
    → (neg64 (due_from_nanos nanos) ≡ nanos / 100)
      × (neg64 (due_from_nanos nanos) * 100 ≤ nanos)
      × (nanos < neg64 (due_from_nanos nanos) * 100 + 100)
unfolding due_from_nanos div64 neg64
due_from_nanos_bounds nanos h = ground arith

-- The period, a signed 32-bit number of milliseconds, is exact below 2^31 ms, and its sign bit is set
-- from there to 2^32 ms.
pub period_millis_range :
    (nanos : ℕ)
    → (nanos / 1_000_000 < 2 ^ 31 → period_millis nanos ≡ nanos / 1_000_000)
      × (2 ^ 31 ≤ nanos / 1_000_000 → nanos / 1_000_000 < 2 ^ 32 → 2 ^ 31 ≤ period_millis nanos)
      × (period_millis nanos < 2 ^ 32)
unfolding period_millis
period_millis_range nanos = omega arith
