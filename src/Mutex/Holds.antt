-- ===== src/Mutex/Holds.antt =====
-- Holds on the locks of mutex.rs: an interface of laws that every kind of lock meets, and what
-- `Locked` makes of them.
use ksync.Base.{ℕ, ◌+◌, ◌≡◌, refl, Bool, true, Bool-cases, inl, inr, arith, Result, ok, err}
use ksync.Kernel.{Kernel, Log, done, M, pure, Returns, Returns-run, ◌>>=◌}
use ksync.Kernel.Ledger.{total, acquires, releases}
use ksync.NtStatus.{NtError, new}
use ksync.Mutex.{Mutex, default_irql_ok}
use ksync.Mutex.Kinds.{fast_mutex, guarded_mutex, resource_mutex}
use ksync.Mutex.Spin.{spin_mutex, spin_lock, spin_unlock}
use ksync.Mutex.Locked
use ksync.Mutex.Locked.{
  Locked, MutexGuard, guard_new, guard_deref_mut, guard_drop, status_unsuccessful,
}

-- From `l` to `l'` the lock at `p` is acquired `a` times and released `r` times.
abbrev pub Adds : ℕ → ℕ → ℕ → Log → Log → Type 0
Adds p a r l l' =
    (total (acquires p) l' ≡ total (acquires p) l + a)
    × (total (releases p) l' ≡ total (releases p) l + r)

-- `lock` acquires the lock once, `unlock` releases it once, and the level test does neither. `key`
-- is the address of the kernel's lock object.
pub record LockLaws {S : Type 0} (m : Mutex S) (key : S → ℕ) : Type 0 where
  pub lock_adds :
      (s : S) (k : Kernel) (l : Log)
      → Returns (m.lock s k l) (λ s' l'. (key s' ≡ key s) × Adds (key s) 1 0 l l')
  pub unlock_adds :
      (s : S) (k : Kernel) (l : Log)
      → Returns (m.unlock s k l) (λ s' l'. (key s' ≡ key s) × Adds (key s) 0 1 l l')
  pub irql_ok_adds :
      (s : S) (k : Kernel) (l : Log) → Returns (m.irql_ok k l) (λ b l'. Adds (key s) 0 0 l l')

pub fast_laws : LockLaws fast_mutex (λ s. s.raw)
unfolding default_irql_ok
fast_laws = record {
  lock_adds = λ s k l. ground arith;
  unlock_adds = λ s k l. ground arith;
  irql_ok_adds = λ s k l. ground arith;
}

pub guarded_laws : LockLaws guarded_mutex (λ s. s.raw)
unfolding default_irql_ok
guarded_laws = record {
  lock_adds = λ s k l. ground arith;
  unlock_adds = λ s k l. ground arith;
  irql_ok_adds = λ s k l. ground arith;
}

pub resource_laws : LockLaws resource_mutex (λ s. s.raw)
unfolding default_irql_ok
resource_laws = record {
  lock_adds = λ s k l. ground arith;
  unlock_adds = λ s k l. ground arith;
  irql_ok_adds = λ s k l. ground arith;
}

pub spin_laws : LockLaws spin_mutex (λ s. s.raw)
unfolding spin_lock spin_unlock
spin_laws = record {
  lock_adds = λ s k l. ground arith;
  unlock_adds = λ s k l. ground arith;
  irql_ok_adds = λ s k l. ground arith;
}

module _ {S : Type 0} (m : Mutex S) (key : S → ℕ) (laws : LockLaws m key) where
  pub irql_ok_run :
      (s : S) (k : Kernel) (l : Log)
      → (b : Bool) × (l' : Log) × (m.irql_ok k l ≡ done b l') × Adds (key s) 0 0 l l'
  irql_ok_run s k l =
      Returns-run {P = λ b. Adds (key s) 0 0 l} (m.irql_ok k l) (laws.irql_ok_adds s k l)

  pub lock_run :
      (s : S) (k : Kernel) (l : Log)
      → (s' : S) × (l' : Log) × (m.lock s k l ≡ done s' l')
        × ((key s' ≡ key s) × Adds (key s) 1 0 l l')
  lock_run s k l =
      Returns-run {P = λ s' l'. (key s' ≡ key s) × Adds (key s) 1 0 l l'} (m.lock s k l)
        (laws.lock_adds s k l)

  pub unlock_run :
      (s : S) (k : Kernel) (l : Log)
      → (s' : S) × (l' : Log) × (m.unlock s k l ≡ done s' l')
        × ((key s' ≡ key s) × Adds (key s) 0 1 l l')
  unlock_run s k l =
      Returns-run {P = λ s' l'. (key s' ≡ key s) × Adds (key s) 0 1 l l'} (m.unlock s k l)
        (laws.unlock_adds s k l)

module _ {T S : Type 0} (m : Mutex S) (key : S → ℕ) (laws : LockLaws m key) where
  -- What `Locked::lock` promises of its result.
  abbrev pub Locks : Locked T S → Log → Result (MutexGuard T S) NtError → Log → Type 0
  Locks self l (err e) l' = (e.code ≡ status_unsuccessful) × Adds (key self.mutex) 0 0 l l'
  Locks self l (ok g) l' =
      (g.exclusive ≡ true)
      × (g.locker.inner ≡ self.inner)
      × (g.locker.content ≡ self.content)
      × (key g.locker.mutex ≡ key self.mutex)
      × Adds (key self.mutex) 1 0 l l'

  -- Over any lock that meets the laws, `lock` returns an exclusive guard of the same content and
  -- acquires the lock once, or returns STATUS_UNSUCCESSFUL and does not acquire it.
  pub lock-Locks :
      (self : Locked T S) (k : Kernel) (l : Log) → Returns (Locked.lock m self k l) (Locks self l)
  unfolding Locked.lock new guard_new
  lock-Locks self k l =
      let (fine, l', e, same) = irql_ok_run m key laws self.mutex k l in
      let (s, l'', e', held) = lock_run m key laws self.mutex k l' in
      elim (Bool-cases fine) [
        | inl high ↦ rw (e, high, e') (refl, refl, refl, held.0, omega arith)
        | inr low ↦ rw (e, low) (refl, same)
      ]

  -- Use of the lock as the crate's examples have it: `if let Ok(mut g) = self.lock() { .. }`.
  unfoldable pub update : (T → T) → Locked T S → M (Result (Unit {0}) NtError × Locked T S)
  unfolding Locked.lock guard_deref_mut guard_drop
  update change self = do
    r ← Locked.lock m self
    elim r [
      | err e ↦ pure (err e, self)
      | ok g ↦ (do g' ← guard_deref_mut m g change; self' ← guard_drop m g'; pure (ok tt, self'))
    ]

  abbrev pub Updates :
      (T → T) → Locked T S → Log → Result (Unit {0}) NtError × Locked T S → Log → Type 0
  Updates change self l (err e, self') l' =
      (self' ≡ self) × (e.code ≡ status_unsuccessful) × Adds (key self.mutex) 0 0 l l'
  Updates change self l (ok _, self') l' =
      (self'.content ≡ change self.content)
      × (self'.inner ≡ self.inner)
      × Adds (key self.mutex) 1 1 l l'

  -- Over any lock that meets the laws, a critical section changes the content as asked and
  -- acquires and releases the lock once, or is refused with STATUS_UNSUCCESSFUL, and then nothing
  -- changes and the lock is not touched.
  pub update-Updates :
      (change : T → T) (self : Locked T S) (k : Kernel) (l : Log)
      → Returns (update change self k l) (Updates change self l)
  unfolding update new guard_new
  update-Updates change self k l =
      let (fine, l', e, same) = irql_ok_run m key laws self.mutex k l in
      let (s, l'', e', held) = lock_run m key laws self.mutex k l' in
      let (s', l3, e'', released) = unlock_run m key laws s k l'' in
      elim (Bool-cases fine) [
        | inl high ↦ rw (e, high, e', e'') (refl, refl, ground arith)
        | inr low ↦ rw (e, low) (refl, refl, same)
      ]
