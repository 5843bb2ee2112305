-- ===== src/Mutex/Locked.antt =====
-- mutex.rs: `Locked<T, M>` and `MutexGuard`. The block behind `inner` holds the lock object and the
-- data; `zero` is the value that zero-filled memory is read as at type `T`.
use ksync.Base.{ℕ, Bool, true, false, not, ◌==◌, if◌then◌else◌, null, Result, ok, err}
use ksync.Kernel.{M, pure, panic, emit, question, ◌>>=◌, ◌>>◌}
use ksync.Kernel.Abi.{write_value, drop_value, ex_free_pool}
use ksync.NtStatus.{NtError, fail}
use ksync.Utils.{ex_allocate_pool_zero, non_paged_pool_nx}
use ksync.Mutex.{Mutex}

pub record Locked (T S : Type 0) : Type 0 where
  pub inner : ℕ
  pub mutex : S
  pub content : T

-- The constant parameter `EXCLUSIVE` is a field.
pub record MutexGuard (T S : Type 0) : Type 0 where
  pub exclusive : Bool
  pub locker : Locked T S

-- `u32::from_ne_bytes(*b"xetm")`
abbrev pub mutex_tag : ℕ
mutex_tag = 0x6d74_6578

abbrev pub status_insufficient_resources : ℕ
status_insufficient_resources = 0xc000_009a

abbrev pub status_unsuccessful : ℕ
status_unsuccessful = 0xc000_0001

module _ {T S : Type 0} (m : Mutex S) where
  unfoldable pub new : (size : ℕ) → T → M (Result (Locked T S) NtError)
  unfolding ex_allocate_pool_zero
  new size value = do
    layout ← ex_allocate_pool_zero non_paged_pool_nx size mutex_tag
    if layout == null then fail status_insufficient_resources else (do
      (r, s) ← m.init (m.zeroed layout)
      question r (λ _. do
        emit (write_value layout)
        pure (ok (record { inner = layout; mutex = s; content = value }))))

  -- The assignment to `data` drops what the zeroed memory is read as.
  unfoldable pub default : (size : ℕ) → T → M (Locked T S)
  unfolding ex_allocate_pool_zero
  default size value = do
    layout ← ex_allocate_pool_zero non_paged_pool_nx size mutex_tag
    if layout == null then panic else (do
      (r, s) ← m.init (m.zeroed layout)
      elim r [
        | err e ↦ panic
        | ok _ ↦ (do
          emit (drop_value layout)
          emit (write_value layout)
          pure (record { inner = layout; mutex = s; content = value }))
      ])

  -- `MutexGuard::new`
  unfoldable pub guard_new : Bool → Locked T S → M (MutexGuard T S)
  guard_new exclusive locker = do
    s ← if exclusive then m.lock locker.mutex else m.lock_shared locker.mutex
    pure (record { exclusive = exclusive; locker = record locker { mutex = s } })

  unfoldable pub lock : Locked T S → M (Result (MutexGuard T S) NtError)
  unfolding guard_new
  lock self = do
    fine ← m.irql_ok
    if not fine then fail status_unsuccessful else (do g ← guard_new true self; pure (ok g))

  -- `debug` is `cfg(debug_assertions)`.
  unfoldable pub lock_shared : (debug : Bool) → Locked T S → M (Result (MutexGuard T S) NtError)
  lock_shared debug self = do
    fine ← m.irql_ok
    if not fine
        then fail status_unsuccessful
        else if not m.shareable
        then (if debug then panic else fail status_unsuccessful)
        else pure (ok (record { exclusive = false; locker = self }))

  -- `Deref` and `DerefMut` of the guard; the latter writes through a reference.
  unfoldable pub guard_deref : MutexGuard T S → T
  guard_deref g = g.locker.content

  unfoldable pub guard_deref_mut : MutexGuard T S → (T → T) → M (MutexGuard T S)
  guard_deref_mut g change =
      if g.exclusive
      then pure (record g { locker = record g.locker { content = change g.locker.content } })
      else panic

  -- `Drop` of the guard: what is left is the locked object that it borrowed.
  unfoldable pub guard_drop : MutexGuard T S → M (Locked T S)
  guard_drop g = do
    s ← if g.exclusive then m.unlock g.locker.mutex else m.unlock_shared g.locker.mutex
    pure (record g.locker { mutex = s })

  -- `lock`, `clone` and the drop of the guard; the clone itself is the user's code.
  unfoldable pub get_cloned : Locked T S → M (Result T NtError × Locked T S)
  unfolding lock guard_deref guard_drop
  get_cloned self = do
    r ← lock self
    elim r [
      | err e ↦ pure (err e, self)
      | ok g ↦ (do self' ← guard_drop g; pure (ok (guard_deref g), self'))
    ]

  -- The assignment drops the old value.
  unfoldable pub set : Locked T S → T → M (Locked T S)
  set self value = do
    emit (drop_value self.inner)
    emit (write_value self.inner)
    pure (record self { content = value })

  -- `get_mut`, `Deref` and `DerefMut` of the locked object, which take no lock.
  unfoldable pub get_mut : Locked T S → (T → T) → Locked T S
  get_mut self change = record self { content = change self.content }

  unfoldable pub deref : Locked T S → T
  deref self = self.content

  unfoldable pub deref_mut : Locked T S → (T → T) → Locked T S
  deref_mut self change = record self { content = change self.content }

  -- `Drop` of the locked object.
  unfoldable pub drop : Locked T S → M (Unit {0})
  drop self = do
    emit (drop_value self.inner)
    m.drop self.mutex
    emit (ex_free_pool self.inner mutex_tag)
