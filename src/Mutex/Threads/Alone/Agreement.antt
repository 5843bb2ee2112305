-- ===== src/Mutex/Threads/Alone/Agreement.antt =====
-- The threads of Mutex/Threads beside the code of mutex.rs (Mutex/Locked): a thread that the others
-- leave alone does in its steps what the methods of `Locked` do in one go.
use ksync.Base.{ℕ, ◌≡◌, refl, Bool, true, false, Bool-cases, inl, inr, none, some, ok, err}
use ksync.Kernel.{Kernel, Log, M, pure, Returns, ◌>>=◌}
use ksync.Mutex.{Mutex}
use ksync.Mutex.Locked
use ksync.Mutex.Locked.{Locked}
use ksync.Mutex.Holds.{LockLaws, irql_ok_run, lock_run, unlock_run}
use ksync.Mutex.Threads.{
  Job, change, cloned, shared, peek, Place, returned, refused, first, step, is_free, System,
}
use ksync.NtStatus.{new}
use ksync.Mutex.Threads.Alone.{
  Leads, Leads-begin, Leads-move, Leads-refused, Leads-change, Leads-cloned,
}

-- The code of a job, and the place at which it leaves its thread.
module _ {T S : Type 0} (m : Mutex S) where
  unfoldable pub perform : Job T → Locked T S → M (Place T × Locked T S)
  unfolding Locked.lock Locked.lock_shared Locked.guard_deref Locked.guard_deref_mut
      Locked.guard_drop Locked.get_cloned Locked.deref
  perform (change f) self = do
    r ← Locked.lock m self
    elim r [
      | err e ↦ pure (refused, self)
      | ok g ↦ (do
        g' ← Locked.guard_deref_mut m g f
        self' ← Locked.guard_drop m g'
        pure (returned none, self'))
    ]
  perform cloned self = do
    r ← Locked.get_cloned m self
    elim r.0 [ err e ↦ pure (refused, r.1) | ok v ↦ pure (returned (some v), r.1) ]
  perform (shared b) self = do
    r ← Locked.lock_shared m false self
    elim r [
      | err e ↦ pure (refused, self)
      | ok g ↦ (do
        self' ← Locked.guard_drop m g
        pure (returned (some (Locked.guard_deref m g)), self'))
    ]
  perform peek self = pure (returned (some (Locked.deref m self)), self)

-- The jobs that share nothing.
abbrev pub is_exclusive : {T : Type 0} → Job T → Bool
is_exclusive (shared b) = false
is_exclusive _ = true

module _ {T S L : Type 0} (m : Mutex S) (key : S → ℕ) (laws : LockLaws m key) (k : Kernel)
    (Acquire Release : ℕ → L → L → Type 0) (i : ℕ) (s : System T L) (l1 l2 : L) where
  -- The job in one go, and some steps of the thread, end with the same answer and the same content.
  abbrev pub Agrees : Place T × Locked T S → Log → Type 0
  Agrees r l = (l' : L) × Leads Acquire Release i s r.0 r.1.content l'

  -- Over any kind of lock that meets the laws, from a state where a thread is free and the lock object
  -- can be acquired by it and then released: an update through a guard, get_cloned or a read without
  -- the lock returns, and by some steps the thread reaches the same answer, which is a refusal where
  -- the interrupt level was too high, with the same content and the other threads where they were.
  perform-Agrees :
      (job : Job T) (self : Locked T S) (l : Log)
      → is_exclusive job ≡ true
      → is_free (s.place i) ≡ true
      → Acquire i s.lock l1
      → Release i l1 l2
      → self.content ≡ s.content
      → Returns (perform m job self k l) Agrees
  unfolding perform Locked.guard_new first step new
  perform-Agrees (shared b) self l alone free got gone same = cc
  perform-Agrees peek self l alone free got gone same =
      rw same (s.lock, Leads-move Acquire Release i s _ (Leads-begin Acquire Release i s peek free))
  perform-Agrees (change f) self l alone free got gone same =
      let (fine, l3, e1, _) = irql_ok_run m key laws self.mutex k l in
      let (x, l4, e2, _) = lock_run m key laws self.mutex k l3 in
      let (y, l5, e3, _) = unlock_run m key laws x k l4 in
      elim (Bool-cases fine) [
        | inl low ↦
            rw (e1, low, e2, e3, same) (l2, Leads-change Acquire Release i s free got gone f)
        | inr high ↦
            rw (e1, high, same)
              (s.lock, Leads-refused Acquire Release i s free got gone (change f) refl)
      ]
  perform-Agrees cloned self l alone free got gone same =
      let (fine, l3, e1, _) = irql_ok_run m key laws self.mutex k l in
      let (x, l4, e2, _) = lock_run m key laws self.mutex k l3 in
      let (y, l5, e3, _) = unlock_run m key laws x k l4 in
      elim (Bool-cases fine) [
        | inl low ↦ rw (e1, low, e2, e3, same) (l2, Leads-cloned Acquire Release i s free got gone)
        | inr high ↦
            rw (e1, high, same)
              (s.lock, Leads-refused Acquire Release i s free got gone cloned refl)
      ]
