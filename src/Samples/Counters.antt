-- ===== src/Samples/Counters.antt =====
-- test.rs: `test_guard_mutex`, `test_fast_mutex`, `test_spinlock`, `test_resouce_lock` and
-- `test_queued_spin_lock`, which differ in the kind of lock, a parameter here, and in the rounds.
use ksync.Base.{ℕ, ◌+◌, ◌*◌, ◌^◌, ◌<◌, ◌≡◌, Bool, arith}
use ksync.Mutex.Threads.{Exclusive}
use ksync.Mutex.Threads.Counter.{Run, Runs, Finished}
use ksync.Mutex.Threads.Counter.Sums.{sum_below}
use ksync.Mutex.Threads.Counter.Total.{counter_total}

-- The states that a test reaches: four threads are spawned, and each adds one, round by round, to a
-- counter that starts at zero.
module _ {L : Type 0} (Acquire Release : ℕ → L → L → Type 0) (fresh : L) where
  unfoldable pub TestGuardMutex : Run L → Type 0
  TestGuardMutex = Runs Acquire Release fresh 0 4 100

  unfoldable pub TestFastMutex : Run L → Type 0
  TestFastMutex = Runs Acquire Release fresh 0 4 100

  unfoldable pub TestSpinlock : Run L → Type 0
  TestSpinlock = Runs Acquire Release fresh 0 4 100

  unfoldable pub TestResouceLock : Run L → Type 0
  TestResouceLock = Runs Acquire Release fresh 0 4 100

  -- Each round has its own queue handle.
  unfoldable pub TestQueuedSpinLock : Run L → Type 0
  TestQueuedSpinLock = Runs Acquire Release fresh 0 4 1000

module _ {L : Type 0} {held : L → ℕ → Bool} {Acquire Release : ℕ → L → L → Type 0} {fresh : L}
    (laws : Exclusive held Acquire Release fresh) (r : Run L) (finished : Finished 4 r) where
  -- The number that a test prints when every thread has left its loop: one for each round in which
  -- `lock` succeeded.
  abbrev Prints : (all : ℕ) → Type 0
  Prints all = r.system.content + sum_below 4 r.failed ≡ all

  Prints-all :
      (rounds : ℕ) → rounds < 2 ^ 30 → Runs Acquire Release fresh 0 4 rounds r → Prints (4 * rounds)
  Prints-all rounds few runs =
      let (n, all, total) = counter_total 0 4 rounds laws (omega arith) runs finished in omega arith

  guard_mutex-Prints : TestGuardMutex Acquire Release fresh r → Prints 400
  unfolding TestGuardMutex
  guard_mutex-Prints runs = Prints-all 100 (omega arith) runs

  fast_mutex-Prints : TestFastMutex Acquire Release fresh r → Prints 400
  unfolding TestFastMutex
  fast_mutex-Prints runs = Prints-all 100 (omega arith) runs

  spinlock-Prints : TestSpinlock Acquire Release fresh r → Prints 400
  unfolding TestSpinlock
  spinlock-Prints runs = Prints-all 100 (omega arith) runs

  resouce_lock-Prints : TestResouceLock Acquire Release fresh r → Prints 400
  unfolding TestResouceLock
  resouce_lock-Prints runs = Prints-all 100 (omega arith) runs

  queued_spin_lock-Prints : TestQueuedSpinLock Acquire Release fresh r → Prints 4000
  unfolding TestQueuedSpinLock
  queued_spin_lock-Prints runs = Prints-all 1000 (omega arith) runs
