-- ===== src/Sync.antt =====
-- event.rs and sema.rs: `Event` and `Semaphore`. lock.rs: `UniqueLock` and `SharedLock`.
pub mod Laws
pub mod Sequences
use ksync.Base.{ℕ, Bool, true, false, not, ◌==◌, if◌then◌else◌, null, Result, ok, err}
use ksync.Kernel.{M, pure, call, emit, ◌>>=◌, ◌>>◌}
use ksync.Kernel.Abi.{
  ex_free_pool, ke_initialize_event, ke_set_event, ke_clear_event, ke_reset_event,
  ke_read_state_event, ke_initialize_semaphore, ke_release_semaphore, ke_read_state_semaphore,
}
use ksync.Kernel.Ledger.{one_if}
use ksync.NtStatus.{NtError, fail}
use ksync.Utils.{ex_allocate_pool_zero, non_paged_pool_nx}
use ksync.Object.Wait.{WaitResult, wait, wait_for}
use ksync.Mutex.{Mutex}
use ksync.Mutex.Locked.{status_insufficient_resources}

pub record EventProperty : Type 0 where
  pub auto_reset : Bool
  pub initial_state : Bool

unfoldable pub property_new : EventProperty
property_new = record { auto_reset = false; initial_state = false }

unfoldable pub with_auto_reset : EventProperty → Bool → EventProperty
with_auto_reset self value = record self { auto_reset = value }

unfoldable pub with_initial_state : EventProperty → Bool → EventProperty
with_initial_state self value = record self { initial_state = value }

-- `u32::from_ne_bytes(*b"tvek")` and `*b"ames"`
abbrev pub event_tag : ℕ
event_tag = 0x6b65_7674

abbrev pub sema_tag : ℕ
sema_tag = 0x7365_6d61

pub record Event : Type 0 where
  pub raw : ℕ

-- `NotificationEvent` is 0 and `SynchronizationEvent` is 1.
unfoldable pub event_new : (size : ℕ) → EventProperty → M (Result Event NtError)
unfolding ex_allocate_pool_zero
event_new size prop = do
  layout ← ex_allocate_pool_zero non_paged_pool_nx size event_tag
  if layout == null then fail status_insufficient_resources else (do
    emit (ke_initialize_event layout (one_if prop.auto_reset) (one_if prop.initial_state))
    pure (ok (record { raw = layout })))

unfoldable pub new_event : (size : ℕ) → EventProperty → M (Result Event NtError)
unfolding event_new
new_event size self = event_new size self

unfoldable pub event_set : Event → M (Unit {0})
event_set self = emit (ke_set_event self.raw)

unfoldable pub event_clear : Event → M (Unit {0})
event_clear self = emit (ke_clear_event self.raw)

unfoldable pub event_reset : Event → M Bool
event_reset self = do r ← call (ke_reset_event self.raw); pure (not (r.ret == 0))

unfoldable pub event_state : Event → M Bool
event_state self = do r ← call (ke_read_state_event self.raw); pure (not (r.ret == 0))

unfoldable pub event_drop : Event → M (Unit {0})
event_drop self = emit (ex_free_pool self.raw event_tag)

pub record Semaphore : Type 0 where
  pub raw : ℕ

unfoldable pub sema_new : (size count limit : ℕ) → M (Result Semaphore NtError)
unfolding ex_allocate_pool_zero
sema_new size count limit = do
  layout ← ex_allocate_pool_zero non_paged_pool_nx size sema_tag
  if layout == null then fail status_insufficient_resources else (do
    emit (ke_initialize_semaphore layout count limit)
    pure (ok (record { raw = layout })))

unfoldable pub sema_release : Semaphore → (count : ℕ) → M (Unit {0})
sema_release self count = emit (ke_release_semaphore self.raw count 0)

unfoldable pub release_wait : Semaphore → (count : ℕ) → M WaitResult
unfolding wait
release_wait self count = do emit (ke_release_semaphore self.raw count 1); wait self.raw false

unfoldable pub release_wait_for : Semaphore → (count nanos : ℕ) → M WaitResult
unfolding wait_for
release_wait_for self count nanos = do
  emit (ke_release_semaphore self.raw count 1)
  wait_for self.raw nanos false

unfoldable pub sema_state : Semaphore → M Bool
sema_state self = do r ← call (ke_read_state_semaphore self.raw); pure (not (r.ret == 0))

unfoldable pub sema_drop : Semaphore → M (Unit {0})
sema_drop self = emit (ex_free_pool self.raw sema_tag)

-- lock.rs: a guard is the lock object that it borrows.
module _ {S : Type 0} (m : Mutex S) where
  unfoldable pub unique_new : S → M (Result S (Unit {0}))
  unique_new locker = do s ← m.lock locker; pure (ok s)

  unfoldable pub unique_drop : S → M S
  unique_drop self = m.unlock self

  unfoldable pub shared_new : S → M (Result S (Unit {0}))
  shared_new locker = do s ← m.lock_shared locker; pure (ok s)

  unfoldable pub shared_drop : S → M S
  shared_drop self = m.unlock_shared self
