-- ===== src/Mutex/Shared.antt =====
-- `Locked::lock_shared` of mutex.rs.
use ksync.Base.{◌≡◌, Bool, arith, Result, ok, err}
use ksync.Kernel.{Kernel, Log, M, pure, Returns, ◌>>=◌}
use ksync.NtStatus.{NtError, new}
use ksync.Mutex.{default_irql_ok}
use ksync.Mutex.Kinds.{ResourceMutex, resource_mutex}
use ksync.Mutex.Locked
use ksync.Mutex.Locked.{Locked, MutexGuard}
use ksync.Mutex.Holds.{Adds}

-- A shared critical section: the guard is taken, read through, and dropped.
unfoldable pub read_shared :
    {T : Type 0} → Bool → Locked T ResourceMutex → M (Result T NtError × Locked T ResourceMutex)
unfolding Locked.lock_shared Locked.guard_deref Locked.guard_drop
read_shared debug self = do
  r ← Locked.lock_shared resource_mutex debug self
  elim r [
    | err e ↦ pure (err e, self)
    | ok g ↦ (do
      self' ← Locked.guard_drop resource_mutex g
      pure (ok (Locked.guard_deref resource_mutex g), self'))
  ]

abbrev pub Unheld :
    {T : Type 0}
    → Locked T ResourceMutex
    → Log
    → Result T NtError × Locked T ResourceMutex
    → Log
    → Type 0
Unheld self l (err e, self') l' = Adds self.mutex.raw 0 0 l l'
Unheld self l (ok v, self') l' = (v ≡ self.content) × Adds self.mutex.raw 0 1 l l'

-- A shared section over a resource that returns a value has read the content and released the
-- resource once without having acquired it; one that is refused does neither.
pub read_shared-Unheld :
    {T : Type 0} (debug : Bool) (self : Locked T ResourceMutex) (k : Kernel) (l : Log)
    → Returns (read_shared debug self k l) (Unheld self l)
unfolding read_shared default_irql_ok new
read_shared-Unheld debug self k l = ground arith
