-- ===== src/Mutex.antt =====
-- mutex.rs: the traits `Mutex` and `QueuedMutex` as records of operations over the state `S` of the
-- lock object. `zeroed` is the object that zero-filled memory at an address holds.
pub mod Kinds
pub mod Spin
pub mod Locked
pub mod Holds
pub mod Attempts
pub mod Levels
pub mod Queued
pub mod Lifecycle
pub mod Shared
pub mod Handles
pub mod Threads
pub mod Sequences
use ksync.Base.{ℕ, Bool, false, leb, Result}
use ksync.Kernel.{M, pure, panic, call, ◌>>=◌}
use ksync.Kernel.Abi.{ke_get_current_irql}
use ksync.Kernel.Ledger.{apc_level, dispatch_level}
use ksync.NtStatus.{NtError}

pub record Mutex (S : Type 0) : Type 0 where
  pub zeroed : ℕ → S
  pub init : S → M (Result (Unit {0}) NtError × S)
  pub shareable : Bool
  pub lock : S → M S
  pub try_lock : S → M (Bool × S)
  pub lock_shared : S → M S
  pub try_lock_shared : S → M (Bool × S)
  pub unlock_shared : S → M S
  pub unlock : S → M S
  pub irql_ok : M Bool
  pub drop : S → M (Unit {0})  -- the `Drop` of the lock object, nothing for most kinds

-- The trait's default bodies: sharing is `unimplemented!`, and the level must be low.
unfoldable pub default_shareable : Bool
default_shareable = false

unfoldable pub default_unimplemented : {A S : Type 0} → S → M A
default_unimplemented s = panic

unfoldable pub default_irql_ok : M Bool
default_irql_ok = do r ← call ke_get_current_irql; pure (leb r.ret apc_level)

abbrev pub default_drop : {S : Type 0} → S → M (Unit {0})
default_drop s = pure tt

-- `QueuedMutex`: the caller brings the queue handle.
pub record QueuedMutex (S : Type 0) : Type 0 where
  pub zeroed : ℕ → S
  pub init : S → M (Result (Unit {0}) NtError)
  pub lock : S → (handle : ℕ) → M (Unit {0})
  pub unlock : S → (handle : ℕ) → M (Unit {0})
  pub irql_ok : M Bool
  pub drop : S → M (Unit {0})

-- The trait's default body of `irql_ok`.
unfoldable pub queued_default_irql_ok : M Bool
queued_default_irql_ok = do r ← call ke_get_current_irql; pure (leb r.ret dispatch_level)
