-- ===== src/Samples/Signals/Books.antt =====
-- What the steps of test.rs's waiting threads do to the number of those that wait and that were woken.
use ksync.Base.{Bool, zero, suc, inl, inr, ◌⊎◌, refl, ℕ, ◌+◌, ◌<◌, ◌≡◌, ◌==◌, true, arith}
use ksync.Kernel.Ledger.{one_if}
use ksync.Once.Lock.{update}
use ksync.Mutex.Threads.Counter.Sums.{
  sum_below-zero, sum_below-constant, sum_below, sum_below-changed,
}
use ksync.Samples.Signals.{
  Place, waiting, woken, expired, left_over, after_wait, Run, signal, refuse, wake, expire, Runs,
  spawned, then_step, at_first, is_woken, is_waiting, woken_of, waiting_of,
}

-- A thread that waited now stands at `p`.
pub counts-moved :
    {O : Type 0} (waiters i : ℕ) (p : Place) (r : Run O) (o : O)
    → i < waiters
    → r.place i ≡ waiting
    → (woken_of waiters (record r { object = o; place = update r.place i p })
        ≡ woken_of waiters r + is_woken p)
      × (waiting_of waiters (record r { object = o; place = update r.place i p }) + 1
          ≡ waiting_of waiters r + is_waiting p)
counts-moved waiters i p r o below at =
    let first =
      sum_below-changed waiters i (λ j. is_woken (r.place j)) (λ j. is_woken (update r.place i p j))
        below (λ j ne. ground arith) in
    let second =
      sum_below-changed waiters i (λ j. is_waiting (r.place j))
        (λ j. is_waiting (update r.place i p j)) below (λ j ne. ground arith) in
    let here : (i == i) ≡ true = ground arith in
    (ground (arith, first, here), ground (arith, second, here))

pub all-waiting : (n : ℕ) → sum_below n (λ i. 1) ≡ n
all-waiting n = omega (arith, sum_below-constant n 1)

pub none-woken : {O : Type 0} (o : O) (left waiters : ℕ) → woken_of waiters (at_first o left) ≡ 0
none-woken o left waiters = sum_below-zero waiters

module _ {O : Type 0} (Signal Wait : O → O → Type 0) (Full : O → Type 0) (limited : ℕ → Bool) where
  -- Whatever the object is and however the threads are scheduled, each step is a round of the
  -- signaling thread, the end of one thread's wait, or the one exception that can be raised: after `n`
  -- steps `n`, the rounds left and the threads that wait add up to the rounds and the threads of the
  -- start, and one more if the exception was raised. So every run is finite.
  pub every_step_counts :
      {fresh : O} {rounds waiters n : ℕ} {r : Run O}
      → Runs Signal Wait Full limited waiters fresh rounds n r
      → n + r.left + waiting_of waiters r ≡ rounds + waiters + one_if r.raised
  unfolding after_wait
  every_step_counts {waiters = waiters} spawned = omega (arith, all-waiting waiters)
  every_step_counts (then_step runs (signal m o calm more done_it)) =
      omega (arith, every_step_counts runs)
  every_step_counts (then_step runs (refuse m calm more full)) =
      ground (arith, every_step_counts runs)
  every_step_counts {waiters = waiters} (then_step {r = r} runs (wake i o below at done_it)) =
      omega (arith, every_step_counts runs, (counts-moved waiters i woken r o below at).1)
  every_step_counts {waiters = waiters} (then_step {r = r} runs (expire i below may at)) =
      omega (arith, every_step_counts runs, (counts-moved waiters i expired r r.object below at).1)

-- Some thread waits, or none does.
pub first_waiting :
    {O : Type 0} (waiters : ℕ) (r : Run O)
    → (waiting_of waiters r ≡ 0) ⊎ ((i : ℕ) × (i < waiters) × (r.place i ≡ waiting))
first_waiting zero r = inl refl
first_waiting (suc n) r = elim (first_waiting n r) [
  | inr (i, below, at) ↦ inr (i, omega arith, at)
  | inl none_before ↦ elim (waits (r.place n)) [
    | inl gone ↦ inl (omega (arith, none_before, gone))
    | inr here ↦ inr (n, omega arith, here)
  ]
]
  where
    waits : (p : Place) → (is_waiting p ≡ 0) ⊎ (p ≡ waiting)
    waits waiting = inr refl
    waits woken = inl refl
    waits expired = inl refl
    waits left_over = inl refl
