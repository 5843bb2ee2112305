-- ===== src/Mutex/Attempts.antt =====
-- `try_lock` and `try_lock_shared` of the kinds of lock in mutex.rs.
use ksync.Base.{ℕ, Bool, ◌≡◌, true, false, arith, if◌then◌else◌}
use ksync.Kernel.{Kernel, Log, M, pure, Returns, ◌>>=◌}
use ksync.Kernel.Ledger.{one_if}
use ksync.Mutex.{Mutex}
use ksync.Mutex.Kinds.{
  FastMutex, fast_mutex, fast_try_lock, GuardedMutex, guarded_mutex, guarded_try_lock,
  ResourceMutex, resource_mutex, resource_try_lock, resource_try_lock_shared,
}
use ksync.Mutex.Spin.{SpinLockInner, spin_mutex, spin_try_lock, spin_unlock}
use ksync.Mutex.Holds.{Adds}

-- From `l` a lock at `p` was tried: it is held once more if the answer is true, and not if it is false.
abbrev pub Tried : {S : Type 0} → (S → ℕ) → ℕ → Log → Bool × S → Log → Type 0
Tried key p l r l' = (key r.1 ≡ p) × Adds p (one_if r.0) 0 l l'

-- Use of a lock that does not wait: `if m.try_lock() { m.unlock() }`.
unfoldable pub attempt : {S : Type 0} → Mutex S → S → M Bool
attempt m s = do r ← m.try_lock s; if r.0 then (do s' ← m.unlock r.1; pure true) else pure false

-- The same for the shared hold of a resource.
unfoldable pub attempt_shared : {S : Type 0} → Mutex S → S → M Bool
attempt_shared m s = do
  r ← m.try_lock_shared s
  if r.0 then (do s' ← m.unlock_shared r.1; pure true) else pure false

-- For each kind of lock that has `try_lock`, and for the shared try of a resource: it never panics, it
-- takes one hold exactly when it answers true, and a caller that unlocks after that answer, with
-- `unlock_shared` after the shared try, gives back exactly what it took.
pub try_lock-Adds :
    (f : FastMutex) (g : GuardedMutex) (e : ResourceMutex) (s : SpinLockInner) (k : Kernel)
    (l : Log)
    → Returns (fast_mutex.try_lock f k l) (Tried (λ x. x.raw) f.raw l)
      × Returns (guarded_mutex.try_lock g k l) (Tried (λ x. x.raw) g.raw l)
      × Returns (resource_mutex.try_lock e k l) (Tried (λ x. x.raw) e.raw l)
      × Returns (resource_mutex.try_lock_shared e k l) (Tried (λ x. x.raw) e.raw l)
      × Returns (spin_mutex.try_lock s k l) (Tried (λ x. x.raw) s.raw l)
      × Returns (attempt fast_mutex f k l) (λ b. Adds f.raw (one_if b) (one_if b) l)
      × Returns (attempt guarded_mutex g k l) (λ b. Adds g.raw (one_if b) (one_if b) l)
      × Returns (attempt resource_mutex e k l) (λ b. Adds e.raw (one_if b) (one_if b) l)
      × Returns (attempt_shared resource_mutex e k l) (λ b. Adds e.raw (one_if b) (one_if b) l)
      × Returns (attempt spin_mutex s k l) (λ b. Adds s.raw (one_if b) (one_if b) l)
unfolding fast_try_lock guarded_try_lock resource_try_lock resource_try_lock_shared spin_try_lock
    spin_unlock attempt attempt_shared
try_lock-Adds f g e s k l = (
  ground arith,
  ground arith,
  ground arith,
  ground arith,
  ground arith,
  ground arith,
  ground arith,
  ground arith,
  ground arith,
  ground arith,
)
