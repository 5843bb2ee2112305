-- ===== src/Samples/Signals/Event.antt =====
-- `test_event` of test.rs: a thread sets an auto-reset event round by round; an observer waits for it
-- with a time limit, and workers without one.
use ksync.Base.{
  ℕ, ◌+◌, ◌<◌, ◌≤◌, ◌≡◌, ◌⊎◌, inl, inr, Bool, true, false, Bool-cases, arith, zero-cases,
}
use ksync.Kernel.Ledger.{one_if}
use ksync.Samples.Signals.{
  woken, expired, after_wait, Run, Step, signal, refuse, wake, expire, Runs, spawned, then_step,
  woken_of, waiting_of,
}
use ksync.Samples.Signals.Books.{counts-moved, none-woken, first_waiting}

-- What the kernel documents of an auto-reset event that starts unsignaled: `KeSetEvent` signals it,
-- whatever it was, and a wait ends when it is signaled and resets it.
pub record EventLaws {O : Type 0} (signaled : O → Bool) (Set Wait : O → O → Type 0) (fresh : O)
    : Type 0 where
  pub fresh_unsignaled : signaled fresh ≡ false
  pub set_signals : (o o' : O) → Set o o' → signaled o' ≡ true
  pub set_now : (o : O) → (o' : O) × Set o o'
  pub wait_resets : (o o' : O) → Wait o o' → (signaled o ≡ true) × (signaled o' ≡ false)
  pub wait_now : (o : O) → signaled o ≡ true → (o' : O) × Wait o o'

-- Setting an event raises no exception.
abbrev pub Never : {O : Type 0} → O → Type 0
Never o = ⊥

module _ {O : Type 0} (signaled : O → Bool) (Set Wait : O → O → Type 0) (limited : ℕ → Bool) where
  abbrev pub Tested : (fresh : O) → (rounds waiters : ℕ) → ℕ → Run O → Type 0
  Tested fresh rounds waiters = Runs Set Wait Never limited waiters fresh rounds

  module _ {fresh : O} (laws : EventLaws signaled Set Wait fresh) where
    -- At every moment no more threads were woken than the event was set, one less while it is
    -- signaled; and once it was set it is signaled or some thread was woken.
    pub event-accounts :
        {rounds waiters n : ℕ} {r : Run O}
        → Tested fresh rounds waiters n r
        → (woken_of waiters r + one_if (signaled r.object) + r.left ≤ rounds)
          × ((r.left ≡ rounds) ⊎ (0 < woken_of waiters r + one_if (signaled r.object)))
          × (r.raised ≡ false)
    unfolding after_wait
    event-accounts {rounds} {waiters} spawned =
        ground (arith, laws.fresh_unsignaled, none-woken fresh rounds waiters)
    event-accounts (then_step {r = r} runs (signal m o calm more done_it)) =
        ground (arith, event-accounts runs, laws.set_signals r.object o done_it)
    event-accounts (then_step runs (refuse m calm more full)) = absurd full
    event-accounts {waiters = waiters} (then_step {r = r} runs (wake i o below at taken)) = ground (
      arith,
      event-accounts runs,
      laws.wait_resets r.object o taken,
      (counts-moved waiters i woken r o below at).0,
    )
    event-accounts {waiters = waiters} (then_step {r = r} runs (expire i below may at)) =
        ground (arith, event-accounts runs, (counts-moved waiters i expired r r.object below at).0)

    -- An event that is set at least once: in every reachable state either a step can be taken, or the
    -- setting thread has finished its loop, and no thread waits any more, or the event is not signaled
    -- and at least one thread was woken.
    pub event_progress :
        {rounds waiters n : ℕ} {r : Run O}
        → 0 < rounds
        → Tested fresh rounds waiters n r
        → ((r.left ≡ 0)
            × ((waiting_of waiters r ≡ 0)
                ⊎ ((signaled r.object ≡ false) × (0 < woken_of waiters r))))
          ⊎ ((t : Run O) × Step Set Wait Never limited waiters r t)
    event_progress {rounds} {waiters} {n} {r} some_round runs =
        let (bounded, felt, calm) = event-accounts runs in
        elim (zero-cases r.left) [
          | inr (m, more) ↦
              let (o, done_it) = laws.set_now r.object in inr (_, signal m o calm more done_it)
          | inl finished ↦ elim (Bool-cases (signaled r.object)) [
            | inr quiet ↦ inl (finished, inr (quiet, ground arith))
            | inl ready ↦ elim (first_waiting waiters r) [
              | inl gone ↦ inl (finished, inl gone)
              | inr (i, below, at) ↦
                  let (o, taken) = laws.wait_now r.object ready in inr (_, wake i o below at taken)
            ]
          ]
        ]
