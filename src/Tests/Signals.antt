-- ===== src/Tests/Signals.antt =====
-- The threads of Samples/Signals over a semaphore that is its count.
use ksync.Base.{ℕ, zero, suc, ◌<◌, ◌≡◌, ◌⊎◌, refl, false, arith}
use ksync.Samples.Signals.{Run, Step, spawned, then_step, signal, wake, woken_of}
use ksync.Samples.Signals.Semaphore

abbrev same : ℕ → ℕ
same n = n

-- A semaphore with the limit 3.
abbrev Release : ℕ → ℕ → Type 0
Release c c' = (c < 3) × (c' ≡ suc c)

abbrev Wait : ℕ → ℕ → Type 0
Wait c c' = c ≡ suc c'

take_one : (c : ℕ) → 0 < c → (c' : ℕ) × Wait c c'
take_one zero h = absurd (omega arith)
take_one (suc c) h = (c, refl)

count-Laws : Semaphore.SemaphoreLaws same 3 Release Wait 0
count-Laws = record {
  fresh_count = refl;
  release_adds = λ o o' r. (omega arith, omega arith);
  release_now = λ o h. (suc o, (h, refl));
  wait_takes = λ o o' w. omega arith;
  wait_now = take_one;
}

abbrev Tested : ℕ → Run ℕ → Type 0
Tested = Semaphore.Tested same 3 Release Wait 0 2 3

-- The producer has released once, and consumer 1 has been woken.
unfoldable one_woken : (r : Run ℕ) × Tested 2 r
one_woken = (
  _,
  then_step (then_step spawned (signal 1 1 refl refl (omega arith, refl)))
      (wake 1 0 (omega arith) refl refl),
)

semaphore_progress_example :
    (one_woken.0.left ≡ 0)
      × (one_woken.0.raised ≡ false)
      × (one_woken.0.object ≡ 0)
      × (woken_of 3 one_woken.0 ≡ 2)
    ⊎ ((t : Run ℕ) × Step Release Wait
          (Semaphore.AtLimit same 3 Release Wait)
          Semaphore.unlimited
          3
          one_woken.0
          t)
semaphore_progress_example =
    Semaphore.semaphore_progress same 3 Release Wait count-Laws {r = one_woken.0} (omega arith)
      (omega arith) one_woken.1
