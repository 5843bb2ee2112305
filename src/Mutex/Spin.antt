-- ===== src/Mutex/Spin.antt =====
-- mutex.rs: `SpinMutex`, and `QueuedSpinMutex` with its queue handle.
use ksync.Base.{ℕ, Bool, true, false, not, ◌==◌, leb, if◌then◌else◌, ok, Result}
use ksync.Kernel.{M, pure, call, emit, ◌>>=◌, ◌>>◌}
use ksync.Kernel.Abi.{
  ke_get_current_irql, ke_initialize_spin_lock, ke_acquire_spin_lock_at_dpc_level,
  ke_acquire_spin_lock_raise_to_dpc, ke_try_to_acquire_spin_lock_at_dpc_level,
  ke_release_spin_lock_from_dpc_level, ke_release_spin_lock, ke_acquire_in_stack_queued_spin_lock,
  ke_acquire_in_stack_queued_spin_lock_at_dpc_level, ke_release_in_stack_queued_spin_lock,
  ke_release_in_stack_queued_spin_lock_from_dpc_level,
}
use ksync.Kernel.Ledger.{dispatch_level}
use ksync.NtStatus.{NtError}
use ksync.Mutex.{
  Mutex, default_shareable, default_unimplemented, default_drop, QueuedMutex,
  queued_default_irql_ok,
}

pub record SpinLockInner : Type 0 where
  pub irql : ℕ  -- the level to go back to
  pub raw : ℕ  -- the address of the `KSPIN_LOCK`

unfoldable pub spin_init : SpinLockInner → M (Result (Unit {0}) NtError × SpinLockInner)
spin_init s = do emit (ke_initialize_spin_lock s.raw); pure (ok tt, record s { irql = 0 })

unfoldable pub spin_try_lock : SpinLockInner → M (Bool × SpinLockInner)
spin_try_lock s = do
  i ← call ke_get_current_irql
  if i.ret == dispatch_level
      then (do
        r ← call (ke_try_to_acquire_spin_lock_at_dpc_level s.raw)
        pure (not (r.ret == 0), s))
      else pure (false, s)

unfoldable pub spin_lock : SpinLockInner → M SpinLockInner
spin_lock s = do
  i ← call ke_get_current_irql
  if leb dispatch_level i.ret
      then (do emit (ke_acquire_spin_lock_at_dpc_level s.raw); pure s)
      else (do r ← call (ke_acquire_spin_lock_raise_to_dpc s.raw); pure (record s { irql = r.ret }))

unfoldable pub spin_unlock : SpinLockInner → M SpinLockInner
spin_unlock s = do
  i ← call ke_get_current_irql
  if leb dispatch_level i.ret
      then (do emit (ke_release_spin_lock_from_dpc_level s.raw); pure s)
      else (do emit (ke_release_spin_lock s.raw s.irql); pure s)

abbrev pub spin_mutex : Mutex SpinLockInner
spin_mutex = record {
  zeroed = λ p. record { irql = 0; raw = p };
  init = spin_init;
  shareable = default_shareable;
  lock = spin_lock;
  try_lock = spin_try_lock;
  lock_shared = default_unimplemented;
  try_lock_shared = default_unimplemented;
  unlock_shared = default_unimplemented;
  unlock = spin_unlock;
  irql_ok = pure true;
  drop = default_drop;
}

pub record QueuedSpinMutex : Type 0 where
  pub raw : ℕ

unfoldable pub queued_init : QueuedSpinMutex → M (Result (Unit {0}) NtError)
queued_init s = do emit (ke_initialize_spin_lock s.raw); pure (ok tt)

unfoldable pub queued_lock : QueuedSpinMutex → (handle : ℕ) → M (Unit {0})
queued_lock s handle = do
  i ← call ke_get_current_irql
  if leb dispatch_level i.ret
      then emit (ke_acquire_in_stack_queued_spin_lock_at_dpc_level s.raw handle)
      else emit (ke_acquire_in_stack_queued_spin_lock s.raw handle)

unfoldable pub queued_unlock : QueuedSpinMutex → (handle : ℕ) → M (Unit {0})
queued_unlock s handle = do
  i ← call ke_get_current_irql
  if leb dispatch_level i.ret
      then emit (ke_release_in_stack_queued_spin_lock_from_dpc_level handle)
      else emit (ke_release_in_stack_queued_spin_lock handle)

abbrev pub queued_spin_mutex : QueuedMutex QueuedSpinMutex
queued_spin_mutex = record {
  zeroed = λ p. record { raw = p };
  init = queued_init;
  lock = queued_lock;
  unlock = queued_unlock;
  irql_ok = pure true;
  drop = default_drop;
}

-- `QueuedEmptyMutex`
abbrev pub queued_empty_mutex : QueuedMutex (Unit {0})
queued_empty_mutex = record {
  zeroed = λ p. tt;
  init = λ s. pure (ok tt);
  lock = λ s handle. pure tt;
  unlock = λ s handle. pure tt;
  irql_ok = queued_default_irql_ok;
  drop = default_drop;
}
