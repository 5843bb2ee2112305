-- ===== src/Samples/Signals.antt =====
-- `test_semaphore` and `test_event` of test.rs as threads: one thread signals a kernel object a number
-- of times, and others wait for the object once each. Sleeping and printing are left out. The object is
-- the kernel's, so its states `O`, and what a signal and the end of a wait do to it, are parameters.
pub mod Books
pub mod Semaphore
pub mod Event
use ksync.Base.{ℕ, zero, suc, ◌+◌, ◌<◌, ◌≡◌, Bool, true, false, ◌==◌, if◌then◌else◌, ltb}
use ksync.Once.Lock.{update}
use ksync.Object.Wait.{WaitResult, success, timed_out}
use ksync.Mutex.Threads.Counter.Sums.{sum_below}

-- A waiting thread: inside its wait, or gone after it, having found `success()`, `timed_out()` or
-- neither.
pub data Place : Type 0 where
  waiting : Place
  woken : Place
  expired : Place
  left_over : Place

abbrev pub status_success : ℕ
status_success = 0

abbrev pub status_timeout : ℕ
status_timeout = 0x102

-- What a thread does with the result of its wait.
unfoldable pub after_wait : WaitResult → Place
unfolding success timed_out
after_wait w = if success w then woken else if timed_out w then expired else left_over

-- `left` is the number of rounds that the signaling thread has not finished; `raised` says that a
-- signal raised an exception, which ends the loop.
pub record Run (O : Type 0) : Type 0 where
  pub object : O
  pub left : ℕ
  pub raised : Bool
  pub place : ℕ → Place

-- Every thread has begun its wait.
abbrev pub at_first : {O : Type 0} → O → ℕ → Run O
at_first fresh rounds = record {
  object = fresh;
  left = rounds;
  raised = false;
  place = λ i. waiting;
}

module _ {O : Type 0} (Signal Wait : O → O → Type 0) (Full : O → Type 0) (limited : ℕ → Bool)
    (waiters : ℕ) where
  -- A round of the loop, a round whose signal the kernel refuses, the end of a wait, and the end of a
  -- wait with a time limit.
  pub data Step (r : Run O) : Run O → Type 0 where
    signal :
        (n : ℕ) (o : O)
        → r.raised ≡ false
        → r.left ≡ suc n
        → Signal r.object o
        → Step r (record r { object = o; left = n })
    refuse :
        (n : ℕ)
        → r.raised ≡ false
        → r.left ≡ suc n
        → Full r.object
        → Step r (record r { raised = true })
    wake :
        (i : ℕ) (o : O)
        → i < waiters
        → r.place i ≡ waiting
        → Wait r.object o
        → Step r (record r {
          object = o;
          place = update r.place i (after_wait (record { status = status_success }));
        })
    expire :
        (i : ℕ)
        → i < waiters
        → limited i ≡ true
        → r.place i ≡ waiting
        → Step r (record r {
          place = update r.place i (after_wait (record { status = status_timeout }));
        })

  -- The states after `n` steps.
  pub data Runs (fresh : O) (rounds : ℕ) : ℕ → Run O → Type 0 where
    spawned : Runs fresh rounds 0 (at_first fresh rounds)
    then_step :
        {n : ℕ} {r t : Run O} → Runs fresh rounds n r → Step r t → Runs fresh rounds (suc n) t

abbrev pub is_woken : Place → ℕ
is_woken woken = 1
is_woken _ = 0

abbrev pub is_waiting : Place → ℕ
is_waiting waiting = 1
is_waiting _ = 0

-- How many threads were woken, and how many still wait.
abbrev pub woken_of : {O : Type 0} → ℕ → Run O → ℕ
woken_of waiters r = sum_below waiters (λ i. is_woken (r.place i))

abbrev pub waiting_of : {O : Type 0} → ℕ → Run O → ℕ
waiting_of waiters r = sum_below waiters (λ i. is_waiting (r.place i))
