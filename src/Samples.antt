-- ===== src/Samples.antt =====
-- test.rs: the functions that a driver calls to try the crate by hand. Samples/Signals has the two
-- whose threads wait for each other, Samples/Timers the two whose threads share a timer; here are
-- those that hand closures to the kernel.
pub mod Signals
pub mod Timers
pub mod Counters
pub mod WorkItems
pub mod Objects
use ksync.Base.{ℕ, zero, suc, List, [], ◌∷◌, ◌++◌}
use ksync.Tasks.{Turn, start, delay, hr_delay, work}

-- A loop that starts the same task again and again.
unfoldable pub repeat : ℕ → Turn → List Turn
repeat zero t = []
repeat (suc n) t = t ∷ repeat n t

-- `test_delay_task`: ten timers of three seconds, and six of eight.
unfoldable pub test_delay_task : List Turn
unfolding repeat
test_delay_task =
    repeat 10 (start (delay 3_000_000_000)) ++ repeat 6 (start (hr_delay 8_000_000_000))

-- The last loop of `test_workitem`.
unfoldable pub post_ten : (device : ℕ) → List Turn
unfolding repeat
post_ten device = repeat 10 (start (work device))
