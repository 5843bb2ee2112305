-- ===== src/Sync/Laws.antt =====
-- Events of event.rs over a kernel that reports their state, and the guards of lock.rs.
use ksync.Base.{ℕ, ◌≡◌, Bool, true, false, not, ◌==◌, arith, Result, ok, err}
use ksync.Kernel.{Kernel, Log, M, pure, Returns, ◌>>=◌, ◌>>◌}
use ksync.Kernel.Abi.{ke_reset_event, ke_read_state_event}
use ksync.Kernel.Ledger.{signaled}
use ksync.NtStatus.{NtError, new}
use ksync.Mutex.{Mutex}
use ksync.Mutex.Kinds.{resource_mutex, ResourceMutex}
use ksync.Mutex.Holds.{Adds, LockLaws, lock_run, unlock_run}
use ksync.Mutex.Lifecycle.{Balance}
use ksync.Sync.{
  property_new, with_auto_reset, with_initial_state, Event, new_event, event_set, event_reset,
  event_state, unique_new, unique_drop, shared_new, shared_drop,
}

-- The kernel reports whether an event is signaled, as the calls on it left it.
pub record EventLaws (k : Kernel) : Type 0 where
  pub reset_reports : (l : Log) (e : ℕ) → not ((k l (ke_reset_event e)).ret == 0) ≡ signaled e l
  pub read_reports : (l : Log) (e : ℕ) → not ((k l (ke_read_state_event e)).ret == 0) ≡ signaled e l

-- A signaled or unsignaled event in one new block, or nothing.
abbrev pub Created : Bool → Log → Result Event NtError → Log → Type 0
Created signal l (ok e) l' = (signaled e.raw l' ≡ signal) × Balance 1 0 l l'
Created signal l (err e) l' = Balance 0 0 l l'

-- An event that is made from a property is signaled exactly when the property says so.
pub new_event-Created :
    (size : ℕ) (auto signal : Bool) (k : Kernel) (l : Log)
    → Returns
        (new_event size (with_initial_state (with_auto_reset property_new auto) signal) k l)
        (Created signal l)
unfolding new_event property_new with_auto_reset with_initial_state new
new_event-Created size auto signal k l = ground arith

unfoldable pub set_reset_reset : Event → M (Bool × Bool × Bool)
unfolding event_set event_reset event_state
set_reset_reset e = do
  event_set e
  first ← event_reset e
  second ← event_reset e
  last ← event_state e
  pure (first, second, last)

-- Over a kernel that reports the state of events, an event is set, reset twice and read: the first
-- reset returns true and the second false, and the event ends not signaled.
pub reset_returns_previous :
    (e : Event) (k : Kernel) (l : Log)
    → EventLaws k
    → Returns
        (set_reset_reset e k l)
        (λ r l'. (r ≡ (true, false, false)) × (signaled e.raw l' ≡ false))
unfolding set_reset_reset
reset_returns_previous e k l laws = grind (arith, laws.reset_reports, laws.read_reports)

-- A scope with a `UniqueLock`.
unfoldable pub with_unique : {S : Type 0} → Mutex S → S → M S
unfolding unique_new unique_drop
with_unique m s = do r ← unique_new m s; elim r [ ok g ↦ unique_drop m g | err u ↦ pure s ]

-- Over any lock that meets the laws, a `UniqueLock` that is made and dropped takes the lock once and
-- releases it once.
pub with_unique-Adds :
    {S : Type 0} (m : Mutex S) (key : S → ℕ)
    → LockLaws m key
    → (s : S) (k : Kernel) (l : Log)
    → Returns (with_unique m s k l) (λ s' l'. (key s' ≡ key s) × Adds (key s) 1 1 l l')
unfolding with_unique
with_unique-Adds m key laws s k l =
    let (s', l', e, held) = lock_run m key laws s k l in
    let (s'', l'', e', released) = unlock_run m key laws s' k l' in rw (e, e') (ground arith)

unfoldable pub with_shared : {S : Type 0} → Mutex S → S → M S
unfolding shared_new shared_drop
with_shared m s = do r ← shared_new m s; elim r [ ok g ↦ shared_drop m g | err u ↦ pure s ]

-- `SharedLock::new` and `Drop` over a resource: taken once for sharing, released once.
pub with_shared-Adds :
    (s : ResourceMutex) (k : Kernel) (l : Log)
    → Returns (with_shared resource_mutex s k l) (λ s' l'. (s' ≡ s) × Adds s.raw 1 1 l l')
unfolding with_shared
with_shared-Adds s k l = ground arith
