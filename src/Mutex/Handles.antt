-- ===== src/Mutex/Handles.antt =====
-- `StackQueueLocked` of mutex.rs over `QueuedSpinMutex`: critical sections with a queue handle.
use ksync.Base.{ℕ, ◌≡◌, arith, Result, ok, err}
use ksync.Kernel.{Kernel, Log, M, pure, Returns, ◌>>=◌}
use ksync.NtStatus.{NtError}
use ksync.Mutex.Spin.{QueuedSpinMutex, queued_spin_mutex, queued_lock, queued_unlock}
use ksync.Mutex.Queued
use ksync.Mutex.Queued.{StackQueueLocked}
use ksync.Mutex.Holds.{Adds}

-- `if let Ok(mut g) = self.lock(&mut handle) { .. }`, with `handle` the address of the queue handle.
unfoldable pub queued_update :
    {T : Type 0}
    → (T → T)
    → StackQueueLocked T QueuedSpinMutex
    → (handle : ℕ) → M (Result (Unit {0}) NtError × StackQueueLocked T QueuedSpinMutex)
unfolding Queued.lock Queued.guard_deref_mut Queued.guard_drop
queued_update change self handle = do
  r ← Queued.lock queued_spin_mutex self handle
  elim r [
    | err e ↦ pure (err e, self)
    | ok g ↦ (do
      self' ←
          Queued.guard_drop queued_spin_mutex (Queued.guard_deref_mut queued_spin_mutex g change)
      pure (ok tt, self'))
  ]

-- A critical section of a `StackQueueLocked` over a queued spin lock is never refused: it changes the
-- content as asked, and enqueues and releases its handle once, whatever the level is and becomes.
pub queued_update-Adds :
    {T : Type 0} (change : T → T) (self : StackQueueLocked T QueuedSpinMutex) (handle : ℕ)
    (k : Kernel) (l : Log)
    → Returns (queued_update change self handle k l) λ r l'.
      (r.0 ≡ ok tt)
      × (r.1.content ≡ change self.content)
      × (r.1.inner ≡ self.inner)
      × Adds handle 1 1 l l'
unfolding queued_update queued_lock queued_unlock
queued_update-Adds change self handle k l = ground arith
