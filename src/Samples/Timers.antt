-- ===== src/Samples/Timers.antt =====
-- test.rs: the two threads that share a periodic timer in `test_timer` and `test_hr_timer`. The timer is
-- made and the second thread spawned; the sleep of that thread is left out, so the turns of the two
-- may come in any order.
pub mod Orders
pub mod Whole
use ksync.Base.{
  ℕ, ◌==◌, ◌≡◌, ◌≢◌, ◌+◌, ◌-◌, Bool, true, false, not, ◌&&◌, ◌||◌, if◌then◌else◌, List, [], ◌∷◌, ok,
  err, arith,
}
use ksync.Kernel.{
  panic, Run, done, panicked, fault, and_then-Returns, Kernel, Log, M, pure, Returns, ◌>>=◌, ◌>>◌,
}
use ksync.Timer
use ksync.Timer.{start, stop, drop, period_millis}
use ksync.Timer.Armed.{armed, frees_safely}
use ksync.Dpc

-- Where a thread is: about to start or to stop the timer, about to drop its `Arc`, or gone.
pub data Place : Type 0 where
  acting : Place
  dropping : Place
  gone : Place

-- The two threads, with the number of `Arc`s of the timer: the starter is the thread that runs the
-- test, and the stopper is the thread that it spawned.
pub record Threads : Type 0 where
  pub arcs : ℕ
  pub starter : Place
  pub stopper : Place

-- The drop of an `Arc`: the last one drops the timer.
unfoldable pub release : Timer.Timer → (arcs : ℕ) → M (Unit {0})
release self arcs = if arcs == 1 then drop self else pure tt

unfoldable pub starter_turn : Timer.Timer → (after period : ℕ) → Threads → Place → M Threads
unfolding release
starter_turn self after period s acting = do
  start self after period
  pure (record s { starter = dropping })
starter_turn self after period s dropping = do
  release self s.arcs
  pure (record s { arcs = s.arcs - 1; starter = gone })
starter_turn self after period s gone = pure s

unfoldable pub stopper_turn : Timer.Timer → Threads → Place → M Threads
unfolding release
stopper_turn self s acting = do stop self; pure (record s { stopper = dropping })
stopper_turn self s dropping = do
  release self s.arcs
  pure (record s { arcs = s.arcs - 1; stopper = gone })
stopper_turn self s gone = pure s

-- The next turn is the starter's or the stopper's.
unfoldable pub turn : Timer.Timer → (after period : ℕ) → Threads → Bool → M Threads
unfolding starter_turn stopper_turn
turn self after period s true = starter_turn self after period s s.starter
turn self after period s false = stopper_turn self s s.stopper

unfoldable pub turns : Timer.Timer → (after period : ℕ) → Threads → List Bool → M Threads
unfolding turn
turns self after period s [] = pure s
turns self after period s (who ∷ order) = do
  s' ← turn self after period s who
  turns self after period s' order

-- The timer is made and cloned, and the second thread is there.
abbrev pub at_first : Threads
at_first = record { arcs = 2; starter = acting; stopper = acting }

-- The tests: both make a `Timer`.
unfoldable pub test_timer : (size dpc_size : ℕ) → (order : List Bool) → M Threads
unfolding Timer.new
test_timer size dpc_size order = do
  r ← Timer.new size dpc_size false
  elim r [ err e ↦ panic | ok timer ↦ turns timer 0 5_000_000_000 at_first order ]

unfoldable pub test_hr_timer : (size dpc_size : ℕ) → (order : List Bool) → M Threads
unfolding Timer.new
test_hr_timer size dpc_size order = do
  r ← Timer.new size dpc_size false
  elim r [ err e ↦ panic | ok timer ↦ turns timer 3_000_000_000 1_000_000_000 at_first order ]
