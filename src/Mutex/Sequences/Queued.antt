-- ===== src/Mutex/Sequences/Queued.antt =====
-- Sequences of operations on a `StackQueueLocked` of mutex.rs over the queued spin lock, by one thread.
-- Each operation that locks brings a queue handle of its own.
use ksync.Base.{ℕ, ◌≡◌, refl, ◌∙◌, List, [], ◌∷◌, ◌++◌, arith, ok, err}
use ksync.Kernel.{Kernel, Log, M, pure, Returns, Returns-run, ◌>>=◌}
use ksync.Mutex.Queued
use ksync.Mutex.Queued.{StackQueueLocked}
use ksync.Mutex.Spin.{QueuedSpinMutex, queued_spin_mutex, queued_lock, queued_unlock}
use ksync.Mutex.Sequences.{
  LockedOp, change, clone, assign, modify, write, read, variable, variables, Balanced,
}

-- An operation, and the address of the handle that it would bring.
abbrev pub QueuedOp : Type 0 → Type 0
QueuedOp T = ℕ × LockedOp T

abbrev pub without_handles : {T : Type 0} → List (QueuedOp T) → List (LockedOp T)
without_handles [] = []
without_handles ((handle, o) ∷ os) = o ∷ without_handles os

abbrev pub SpinQueued : Type 0 → Type 0
SpinQueued T = StackQueueLocked T QueuedSpinMutex

module _ {T : Type 0} where
  unfoldable pub queued_op : QueuedOp T → SpinQueued T → M (List T × SpinQueued T)
  unfolding Queued.lock Queued.guard_deref_mut Queued.guard_drop Queued.get_cloned Queued.set
      Queued.get_mut Queued.deref Queued.deref_mut
  queued_op (handle, change f) self = do
    r ← Queued.lock queued_spin_mutex self handle
    elim r [
      | err e ↦ pure ([], self)
      | ok g ↦ (do
        self' ← Queued.guard_drop queued_spin_mutex (Queued.guard_deref_mut queued_spin_mutex g f)
        pure ([], self'))
    ]
  queued_op (handle, clone) self = do
    r ← Queued.get_cloned queued_spin_mutex self handle
    elim r.0 [ err e ↦ pure ([], r.1) | ok v ↦ pure (v ∷ [], r.1) ]
  queued_op (handle, assign w) self = do
    self' ← Queued.set queued_spin_mutex self w
    pure ([], self')
  queued_op (handle, modify f) self = pure ([], Queued.get_mut queued_spin_mutex self f)
  queued_op (handle, write f) self = pure ([], Queued.deref_mut queued_spin_mutex self f)
  queued_op (handle, read) self = pure (Queued.deref queued_spin_mutex self ∷ [], self)

  unfoldable pub queued_ops : List (QueuedOp T) → SpinQueued T → M (List T × SpinQueued T)
  queued_ops [] self = pure ([], self)
  queued_ops (o ∷ os) self = do r ← queued_op o self; s ← queued_ops os r.1; pure (r.0 ++ s.0, s.1)

  -- The answers and the content are the variable's, the lock object stays, and every handle is
  -- released as often as it is enqueued.
  abbrev pub Follows : T × List T → SpinQueued T → Log → List T × SpinQueued T → Log → Type 0
  Follows expected self l r l' =
      (r.0 ≡ expected.1)
      × (r.1.content ≡ expected.0)
      × (r.1.inner ≡ self.inner)
      × ((p : ℕ) → Balanced p l l')

  queued_op-Follows :
      (handle : ℕ) (o : LockedOp T) (self : SpinQueued T) (k : Kernel) (l : Log)
      → Returns (queued_op (handle, o) self k l) (Follows (variable o self.content) self l)
  unfolding queued_op queued_lock queued_unlock
  queued_op-Follows handle (change f) self k l = ground arith
  queued_op-Follows handle clone self k l = ground arith
  queued_op-Follows handle (assign w) self k l = ground arith
  queued_op-Follows handle (modify f) self k l = ground arith
  queued_op-Follows handle (write f) self k l = ground arith
  queued_op-Follows handle read self k l = ground arith

  -- Whatever the interrupt level is, any sequence of updates through guards, get_cloned, set, get_mut
  -- and dereferences on a `StackQueueLocked` over the queued spin lock is never refused, answers as
  -- the same sequence on a variable, leaves the content that the variable has, and releases every
  -- queue handle as often as it enqueues it.
  pub queued_ops_refine :
      (os : List (QueuedOp T)) (self : SpinQueued T) (k : Kernel) (l : Log)
      → Returns
          (queued_ops os self k l)
          (Follows (variables (without_handles os) self.content) self l)
  unfolding queued_ops
  queued_ops_refine [] self k l = (refl, refl, refl, λ p. omega arith)
  queued_ops_refine ((handle, o) ∷ os) self k l =
      let (r, l1, e1, (same, content, inner, holds)) =
        Returns-run {P = Follows (variable o self.content) self l} (queued_op (handle, o) self k l)
          (queued_op-Follows handle o self k l) in
      let (s, l2, e2, (same', content', inner', holds')) =
        Returns-run {P = Follows (variables (without_handles os) r.1.content) r.1 l1}
          (queued_ops os r.1 k l1) (queued_ops_refine os r.1 k l1) in
      rw (e1, e2)
        (
          rw (same, same', content) refl,
          rw (content', content) refl,
          inner' ∙ inner,
          λ p. omega (arith, holds p, holds' p),
        )
