-- ===== src/Mutex/Queued.antt =====
-- mutex.rs: `StackQueueLocked<T, M>` and `InStackMutexGuard`. A queue handle is its address.
use ksync.Base.{ℕ, not, ◌==◌, if◌then◌else◌, null, Result, ok, err}
use ksync.Kernel.{M, pure, panic, emit, question, ◌>>=◌, ◌>>◌}
use ksync.Kernel.Abi.{write_value, drop_value, ex_free_pool}
use ksync.NtStatus.{NtError, fail}
use ksync.Utils.{ex_allocate_pool_zero, non_paged_pool_nx}
use ksync.Mutex.{QueuedMutex}
use ksync.Mutex.Locked.{mutex_tag, status_insufficient_resources, status_unsuccessful}

pub record StackQueueLocked (T S : Type 0) : Type 0 where
  pub inner : ℕ
  pub mutex : S
  pub content : T

pub record InStackMutexGuard (T S : Type 0) : Type 0 where
  pub handle : ℕ
  pub locker : StackQueueLocked T S

module _ {T S : Type 0} (m : QueuedMutex S) where
  unfoldable pub new : (size : ℕ) → T → M (Result (StackQueueLocked T S) NtError)
  unfolding ex_allocate_pool_zero
  new size value = do
    layout ← ex_allocate_pool_zero non_paged_pool_nx size mutex_tag
    if layout == null then fail status_insufficient_resources else (do
      r ← m.init (m.zeroed layout)
      question r (λ _. do
        emit (write_value layout)
        pure (ok (record { inner = layout; mutex = m.zeroed layout; content = value }))))

  -- As for `Locked`, the assignment to `data` drops what the zeroed memory is read as.
  unfoldable pub default : (size : ℕ) → T → M (StackQueueLocked T S)
  unfolding ex_allocate_pool_zero
  default size value = do
    layout ← ex_allocate_pool_zero non_paged_pool_nx size mutex_tag
    if layout == null then panic else (do
      r ← m.init (m.zeroed layout)
      elim r [
        | err e ↦ panic
        | ok _ ↦ (do
          emit (drop_value layout)
          emit (write_value layout)
          pure (record { inner = layout; mutex = m.zeroed layout; content = value }))
      ])

  unfoldable pub lock :
      StackQueueLocked T S → (handle : ℕ) → M (Result (InStackMutexGuard T S) NtError)
  lock self handle = do
    fine ← m.irql_ok
    if not fine
        then fail status_unsuccessful
        else (do m.lock self.mutex handle; pure (ok (record { handle = handle; locker = self })))

  unfoldable pub guard_deref : InStackMutexGuard T S → T
  guard_deref g = g.locker.content

  unfoldable pub guard_deref_mut : InStackMutexGuard T S → (T → T) → InStackMutexGuard T S
  guard_deref_mut g change = record g {
    locker = record g.locker { content = change g.locker.content };
  }

  unfoldable pub guard_drop : InStackMutexGuard T S → M (StackQueueLocked T S)
  guard_drop g = do m.unlock g.locker.mutex g.handle; pure g.locker

  -- `handle` is the address of the local queue handle.
  unfoldable pub get_cloned :
      StackQueueLocked T S → (handle : ℕ) → M (Result T NtError × StackQueueLocked T S)
  unfolding lock guard_deref guard_drop
  get_cloned self handle = do
    r ← lock self handle
    elim r [
      | err e ↦ pure (err e, self)
      | ok g ↦ (do self' ← guard_drop g; pure (ok (guard_deref g), self'))
    ]

  unfoldable pub set : StackQueueLocked T S → T → M (StackQueueLocked T S)
  set self value = do
    emit (drop_value self.inner)
    emit (write_value self.inner)
    pure (record self { content = value })

  -- `get_mut`, `Deref` and `DerefMut`, which take no lock.
  unfoldable pub get_mut : StackQueueLocked T S → (T → T) → StackQueueLocked T S
  get_mut self change = record self { content = change self.content }

  unfoldable pub deref : StackQueueLocked T S → T
  deref self = self.content

  unfoldable pub deref_mut : StackQueueLocked T S → (T → T) → StackQueueLocked T S
  deref_mut self change = record self { content = change self.content }

  unfoldable pub drop : StackQueueLocked T S → M (Unit {0})
  drop self = do
    emit (drop_value self.inner)
    m.drop self.mutex
    emit (ex_free_pool self.inner mutex_tag)
