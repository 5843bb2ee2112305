-- ===== src/Samples/Signals/Semaphore.antt =====
-- `test_semaphore` of test.rs: a producer releases a semaphore round by round, and consumers wait for
-- it once each. `limit` is the limit of the semaphore, which the test takes for the number of consumers
-- too.
use ksync.Base.{ℕ, ◌+◌, ◌<◌, ◌≤◌, ◌≡◌, ◌≢◌, ◌⊎◌, inl, inr, Bool, false, refl, arith, zero-cases}
use ksync.Samples.Signals.{
  woken, after_wait, Run, Step, signal, refuse, wake, expire, Runs, spawned, then_step, woken_of,
  waiting_of,
}
use ksync.Samples.Signals.Books.{counts-moved, none-woken, all-waiting, first_waiting}

-- What the kernel documents of a semaphore: `KeReleaseSemaphore` with the adjustment 1 adds one to its
-- count, and raises STATUS_SEMAPHORE_LIMIT_EXCEEDED at the limit; a wait ends when the count is not 0,
-- and takes one.
pub record SemaphoreLaws {O : Type 0} (count : O → ℕ) (limit : ℕ) (Release Wait : O → O → Type 0)
    (fresh : O) : Type 0 where
  pub fresh_count : count fresh ≡ 0
  pub release_adds : (o o' : O) → Release o o' → (count o' ≡ count o + 1) × (count o < limit)
  pub release_now : (o : O) → count o < limit → (o' : O) × Release o o'
  pub wait_takes : (o o' : O) → Wait o o' → count o ≡ count o' + 1
  pub wait_now : (o : O) → 0 < count o → (o' : O) × Wait o o'

-- No thread of the test waits with a time limit.
abbrev pub unlimited : ℕ → Bool
unlimited i = false

module _ {O : Type 0} (count : O → ℕ) (limit : ℕ) (Release Wait : O → O → Type 0) where
  abbrev pub AtLimit : O → Type 0
  AtLimit o = limit ≤ count o

  -- The producer loops `rounds` times, and there are `consumers` threads.
  abbrev pub Tested : (fresh : O) → (rounds consumers : ℕ) → ℕ → Run O → Type 0
  Tested fresh rounds consumers = Runs Release Wait AtLimit unlimited consumers fresh rounds

  module _ {fresh : O} (laws : SemaphoreLaws count limit Release Wait fresh) where
    -- At every moment each finished round is either one consumer that was woken or one unit of the
    -- semaphore's count, which never exceeds the limit.
    pub semaphore-accounts :
        {rounds consumers n : ℕ} {r : Run O}
        → Tested fresh rounds consumers n r
        → (count r.object + woken_of consumers r + r.left ≡ rounds) × (count r.object ≤ limit)
    unfolding after_wait
    semaphore-accounts {rounds} {consumers} spawned =
        omega (arith, laws.fresh_count, none-woken fresh rounds consumers)
    semaphore-accounts (then_step {r = r} runs (signal m o calm more released)) =
        omega (arith, semaphore-accounts runs, laws.release_adds r.object o released)
    semaphore-accounts (then_step runs (refuse m calm more full)) = semaphore-accounts runs
    semaphore-accounts {consumers = consumers} (then_step {r = r} runs (wake i o below at taken)) =
        omega (
          arith,
          semaphore-accounts runs,
          laws.wait_takes r.object o taken,
          (counts-moved consumers i woken r o below at).0,
        )
    semaphore-accounts (then_step runs (expire i below may at)) = absurd (ground (arith, may))

    -- A consumer is woken or waits.
    all-accounted :
        {rounds consumers n : ℕ} {r : Run O}
        → Tested fresh rounds consumers n r
        → woken_of consumers r + waiting_of consumers r ≡ consumers
    unfolding after_wait
    all-accounted {rounds} {consumers} spawned =
        omega (arith, none-woken fresh rounds consumers, all-waiting consumers)
    all-accounted (then_step runs (signal m o calm more released)) = all-accounted runs
    all-accounted (then_step runs (refuse m calm more full)) = all-accounted runs
    all-accounted {consumers = consumers} (then_step {r = r} runs (wake i o below at taken)) =
        omega (arith, all-accounted runs, counts-moved consumers i woken r o below at)
    all-accounted (then_step runs (expire i below may at)) = absurd (ground (arith, may))

    -- A producer with no more rounds than the limit never releases beyond it.
    pub never-raises :
        {rounds consumers n : ℕ} {r : Run O}
        → rounds ≤ limit
        → Tested fresh rounds consumers n r
        → r.raised ≡ false
    never-raises few spawned = refl
    never-raises few (then_step runs (signal m o calm more released)) = calm
    never-raises few (then_step runs (refuse m calm more full)) =
        absurd (omega (arith, semaphore-accounts runs))
    never-raises few (then_step runs (wake i o below at taken)) = never-raises few runs
    never-raises few (then_step runs (expire i below may at)) = never-raises few runs

    -- A producer with no more rounds than the limit of the semaphore and than there are consumers: in
    -- every reachable state either a step can be taken, or the producer has finished its loop without
    -- an exception, the count is 0, and exactly as many consumers were woken as there were rounds.
    pub semaphore_progress :
        {rounds consumers n : ℕ} {r : Run O}
        → rounds ≤ limit
        → rounds ≤ consumers
        → Tested fresh rounds consumers n r
        → ((r.left ≡ 0)
            × (r.raised ≡ false)
            × (count r.object ≡ 0)
            × (woken_of consumers r ≡ rounds))
          ⊎ ((t : Run O) × Step Release Wait AtLimit unlimited consumers r t)
    semaphore_progress {rounds} {consumers} {n} {r} few enough runs =
        let (accounts, bounded) = semaphore-accounts runs in
        let places = all-accounted runs in
        let calm = never-raises few runs in
        elim (zero-cases r.left) [
          | inr (m, more) ↦
              let (o, released) = laws.release_now r.object (omega arith) in
              inr (_, signal m o calm more released)
          | inl finished ↦ elim (zero-cases (count r.object)) [
            | inl empty ↦ inl (finished, calm, empty, omega arith)
            | inr (m, more) ↦ elim (first_waiting consumers r) [
              | inl gone ↦ absurd (omega arith)
              | inr (i, below, at) ↦
                  let (o, taken) = laws.wait_now r.object (omega arith) in
                  inr (_, wake i o below at taken)
            ]
          ]
        ]

    -- A producer with more rounds than the limit and the consumers together never finishes its loop.
    pub too_many_rounds :
        {rounds consumers n : ℕ} {r : Run O}
        → limit + consumers < rounds
        → Tested fresh rounds consumers n r
        → r.left ≢ 0
    too_many_rounds {rounds} {consumers} {n} {r} many runs finished =
        omega (arith, semaphore-accounts runs, all-accounted runs)
