-- ===== src/Mutex/Kinds.antt =====
-- mutex.rs: `EmptyMutex`, `FastMutex`, `GuardedMutex` and `ResourceMutex`. Their state is all in the
-- kernel's lock object, so the model keeps its address.
use ksync.Base.{ℕ, Bool, true, false, not, ◌==◌, ok}
use ksync.Kernel.{M, pure, call, emit, ◌>>=◌, ◌>>◌}
use ksync.Kernel.Abi.{
  ke_initialize_event, ex_acquire_fast_mutex, ex_try_to_acquire_fast_mutex, ex_release_fast_mutex,
  ke_initialize_guarded_mutex, ke_acquire_guarded_mutex, ke_try_to_acquire_guarded_mutex,
  ke_release_guarded_mutex, ex_initialize_resource, ex_acquire_resource_exclusive,
  ex_acquire_resource_shared, ex_release_resource, ex_delete_resource,
}
use ksync.NtStatus.{cvt}
use ksync.Mutex.{Mutex, default_shareable, default_unimplemented, default_irql_ok, default_drop}

abbrev pub empty_mutex : Mutex (Unit {0})
empty_mutex = record {
  zeroed = λ p. tt;
  init = λ s. pure (ok tt, s);
  shareable = default_shareable;
  lock = λ s. pure s;
  try_lock = default_unimplemented;
  lock_shared = default_unimplemented;
  try_lock_shared = default_unimplemented;
  unlock_shared = default_unimplemented;
  unlock = λ s. pure s;
  irql_ok = default_irql_ok;
  drop = default_drop;
}

-- The crate initialises a `FAST_MUTEX` itself: the count, the owner and the contention are plain
-- stores to the object, and the event is the kernel's (`SynchronizationEvent` is 1).
pub record FastMutex : Type 0 where
  pub raw : ℕ
  pub count : ℕ
  pub owner : ℕ
  pub contention : ℕ

unfoldable pub ex_initialize_fast_mutex : FastMutex → M FastMutex
ex_initialize_fast_mutex s = do
  emit (ke_initialize_event s.raw 1 0)
  pure (record s { count = 1; owner = 0; contention = 0 })

unfoldable pub fast_try_lock : FastMutex → M (Bool × FastMutex)
fast_try_lock s = do r ← call (ex_try_to_acquire_fast_mutex s.raw); pure (not (r.ret == 0), s)

abbrev pub fast_mutex : Mutex FastMutex
fast_mutex = record {
  zeroed = λ p. record { raw = p; count = 0; owner = 0; contention = 0 };
  init = λ s. (do s' ← ex_initialize_fast_mutex s; pure (ok tt, s'));
  shareable = default_shareable;
  lock = λ s. (do emit (ex_acquire_fast_mutex s.raw); pure s);
  try_lock = fast_try_lock;
  lock_shared = default_unimplemented;
  try_lock_shared = default_unimplemented;
  unlock_shared = default_unimplemented;
  unlock = λ s. (do emit (ex_release_fast_mutex s.raw); pure s);
  irql_ok = default_irql_ok;
  drop = default_drop;
}

pub record GuardedMutex : Type 0 where
  pub raw : ℕ

unfoldable pub guarded_try_lock : GuardedMutex → M (Bool × GuardedMutex)
guarded_try_lock s = do r ← call (ke_try_to_acquire_guarded_mutex s.raw); pure (not (r.ret == 0), s)

abbrev pub guarded_mutex : Mutex GuardedMutex
guarded_mutex = record {
  zeroed = λ p. record { raw = p };
  init = λ s. (do emit (ke_initialize_guarded_mutex s.raw); pure (ok tt, s));
  shareable = default_shareable;
  lock = λ s. (do emit (ke_acquire_guarded_mutex s.raw); pure s);
  try_lock = guarded_try_lock;
  lock_shared = default_unimplemented;
  try_lock_shared = default_unimplemented;
  unlock_shared = default_unimplemented;
  unlock = λ s. (do emit (ke_release_guarded_mutex s.raw); pure s);
  irql_ok = default_irql_ok;
  drop = default_drop;
}

pub record ResourceMutex : Type 0 where
  pub raw : ℕ

unfoldable pub resource_try_lock : ResourceMutex → M (Bool × ResourceMutex)
resource_try_lock s = do
  r ← call (ex_acquire_resource_exclusive s.raw false)
  pure (not (r.ret == 0), s)

unfoldable pub resource_try_lock_shared : ResourceMutex → M (Bool × ResourceMutex)
resource_try_lock_shared s = do
  r ← call (ex_acquire_resource_shared s.raw false)
  pure (not (r.ret == 0), s)

-- `ExReleaseResourceLite`, for both kinds of hold.
abbrev pub resource_unlock : ResourceMutex → M ResourceMutex
resource_unlock s = do emit (ex_release_resource s.raw); pure s

abbrev pub resource_mutex : Mutex ResourceMutex
resource_mutex = record {
  zeroed = λ p. record { raw = p };
  init = λ s. (do r ← call (ex_initialize_resource s.raw); q ← cvt r.ret; pure (q, s));
  shareable = true;
  lock = λ s. (do emit (ex_acquire_resource_exclusive s.raw true); pure s);
  try_lock = resource_try_lock;
  lock_shared = λ s. (do emit (ex_acquire_resource_shared s.raw true); pure s);
  try_lock_shared = resource_try_lock_shared;
  unlock_shared = resource_unlock;
  unlock = resource_unlock;
  irql_ok = default_irql_ok;
  drop = λ s. emit (ex_delete_resource s.raw);
}
