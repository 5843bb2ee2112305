-- ===== src/Tests/Locks.antt =====
-- Locks of mutex.rs, and guards of lock.rs.
use ksync.Kernel.Ledger.{one_if}
use ksync.Base.{List, ◌∷◌, ℕ, ◌+◌, ◌*◌, ◌≡◌, refl, []}
use ksync.Kernel.{Returns}
use ksync.Mutex.Kinds
use ksync.Mutex.Spin
use ksync.Mutex.Locked
use ksync.Mutex.Holds
use ksync.Mutex.Attempts
use ksync.Mutex.Sequences
use ksync.Mutex.Sequences.Queued as QueuedOps
use ksync.Mutex.Levels
use ksync.Tests.Kernels.{no_memory, standard}

-- A resource at 64 and a fast mutex at 64, each with the value 5.
abbrev shared_five : Locked.Locked ℕ Kinds.ResourceMutex
shared_five = record { inner = 64; mutex = record { raw = 64 }; content = 5 }

abbrev fast_five : Locked.Locked ℕ Kinds.FastMutex
fast_five = record {
  inner = 64;
  mutex = record { raw = 64; count = 1; owner = 0; contention = 0 };
  content = 5;
}

abbrev fast_key : Kinds.FastMutex → ℕ
fast_key s = s.raw

abbrev spin : Spin.SpinLockInner
spin = record { raw = 128; irql = 0 }

abbrev add_one : ℕ → ℕ
add_one n = n + 1

standard-Reports : Levels.Reports 0 standard
standard-Reports = record { current = λ l. refl }

abbrev some_calls : List (Sequences.LockedOp ℕ)
some_calls = Sequences.change add_one ∷ Sequences.clone ∷ Sequences.assign 9 ∷ Sequences.clone ∷ []

locked_ops_refine_example :
    Returns (Sequences.locked_ops Kinds.fast_mutex some_calls fast_five no_memory []) λ r l'.
      (r.0 ≡ (Sequences.variables some_calls 5).1)
      × (r.1.content ≡ (Sequences.variables some_calls 5).0)
      × (fast_key r.1.mutex ≡ 64)
      × Sequences.Balanced 64 [] l'
unfolding ksync.Mutex.default_irql_ok
locked_ops_refine_example =
    Sequences.locked_ops_refine Kinds.fast_mutex fast_key no_memory Holds.fast_laws (λ l. refl)
      some_calls fast_five []

abbrev guarded : Kinds.GuardedMutex
guarded = record { raw = 72 }

try_lock-Adds_example :
    Returns
      (Kinds.fast_mutex.try_lock fast_five.mutex standard [])
      (Attempts.Tried (λ x. x.raw) 64 [])
    × Returns (Kinds.guarded_mutex.try_lock guarded standard []) (Attempts.Tried (λ x. x.raw) 72 [])
    × Returns
        (Kinds.resource_mutex.try_lock shared_five.mutex standard [])
        (Attempts.Tried (λ x. x.raw) 64 [])
    × Returns
        (Kinds.resource_mutex.try_lock_shared shared_five.mutex standard [])
        (Attempts.Tried (λ x. x.raw) 64 [])
    × Returns (Spin.spin_mutex.try_lock spin standard []) (Attempts.Tried (λ x. x.raw) 128 [])
    × Returns
        (Attempts.attempt Kinds.fast_mutex fast_five.mutex standard [])
        (λ b. Holds.Adds 64 (one_if b) (one_if b) [])
    × Returns
        (Attempts.attempt Kinds.guarded_mutex guarded standard [])
        (λ b. Holds.Adds 72 (one_if b) (one_if b) [])
    × Returns
        (Attempts.attempt Kinds.resource_mutex shared_five.mutex standard [])
        (λ b. Holds.Adds 64 (one_if b) (one_if b) [])
    × Returns
        (Attempts.attempt_shared Kinds.resource_mutex shared_five.mutex standard [])
        (λ b. Holds.Adds 64 (one_if b) (one_if b) [])
    × Returns
        (Attempts.attempt Spin.spin_mutex spin standard [])
        (λ b. Holds.Adds 128 (one_if b) (one_if b) [])
try_lock-Adds_example =
    Attempts.try_lock-Adds fast_five.mutex guarded shared_five.mutex spin standard []

-- A queued spin lock at 192 around the value 5, and the handles at 300 and 400.
abbrev queued_five : QueuedOps.SpinQueued ℕ
queued_five = record { inner = 192; mutex = record { raw = 192 }; content = 5 }

abbrev queued_list : List (QueuedOps.QueuedOp ℕ)
queued_list =
    (300, Sequences.change (λ n. n + 1))
    ∷ (400, Sequences.clone)
    ∷ (300, Sequences.assign 9)
    ∷ (400, Sequences.change (λ n. n * 2))
    ∷ (300, Sequences.read)
    ∷ []

queued_ops_refine_example :
    Returns
      (QueuedOps.queued_ops queued_list queued_five standard [])
      (QueuedOps.Follows (18, 6 ∷ 18 ∷ []) queued_five [])
queued_ops_refine_example = QueuedOps.queued_ops_refine queued_list queued_five standard []
