-- ===== src/Mutex/Sequences.antt =====
-- Sequences of operations on a `Locked` of mutex.rs by one thread, over any kind of lock.
pub mod Queued
use mathlib.Core.Path.{subst}
use ksync.Base.{refl, ◌∙◌, [], ◌∷◌, ℕ, ◌+◌, ◌≡◌, true, List, ◌++◌, arith, ok, err}
use ksync.Kernel.{Returns-run, Kernel, Log, M, pure, Returns, ◌>>=◌}
use ksync.Kernel.Ledger.{total, acquires, releases}
use ksync.Mutex.{Mutex}
use ksync.Mutex.Locked
use ksync.Mutex.Locked.{Locked}
use ksync.Mutex.Holds.{LockLaws, irql_ok_run, lock_run, unlock_run}

pub data LockedOp (T : Type 0) : Type 0 where
  change : (T → T) → LockedOp T  -- `if let Ok(mut g) = self.lock() { *g = f(*g) }`
  clone : LockedOp T  -- `self.get_cloned()`
  assign : T → LockedOp T  -- `self.set(value)`
  modify : (T → T) → LockedOp T  -- `let v = self.get_mut(); *v = f(*v)`
  write : (T → T) → LockedOp T  -- `*self = f(*self)`, by `DerefMut`
  read : LockedOp T  -- `*self`, by `Deref`

-- The reference: a variable.
abbrev pub variable : {T : Type 0} → LockedOp T → T → T × List T
variable (change f) v = (f v, [])
variable clone v = (v, v ∷ [])
variable (assign w) v = (w, [])
variable (modify f) v = (f v, [])
variable (write f) v = (f v, [])
variable read v = (v, v ∷ [])

abbrev pub variables : {T : Type 0} → List (LockedOp T) → T → T × List T
variables [] v = (v, [])
variables (o ∷ os) v =
    let (v', answer) = variable o v in let (v'', rest) = variables os v' in (v'', answer ++ rest)

-- As many holds on the lock at `p` are given up as are taken.
abbrev pub Balanced : ℕ → Log → Log → Type 0
Balanced p l l' =
    total (acquires p) l' + total (releases p) l ≡ total (acquires p) l + total (releases p) l'

module _ {T S : Type 0} (m : Mutex S) where
  unfoldable pub locked_op : LockedOp T → Locked T S → M (List T × Locked T S)
  unfolding Locked.lock Locked.guard_deref_mut Locked.guard_drop Locked.get_cloned Locked.set
      Locked.get_mut Locked.deref Locked.deref_mut
  locked_op (change f) self = do
    r ← Locked.lock m self
    elim r [
      | err e ↦ pure ([], self)
      | ok g ↦ (do
        g' ← Locked.guard_deref_mut m g f
        self' ← Locked.guard_drop m g'
        pure ([], self'))
    ]
  locked_op clone self = do
    r ← Locked.get_cloned m self
    elim r.0 [ err e ↦ pure ([], r.1) | ok v ↦ pure (v ∷ [], r.1) ]
  locked_op (assign w) self = do self' ← Locked.set m self w; pure ([], self')
  locked_op (modify f) self = pure ([], Locked.get_mut m self f)
  locked_op (write f) self = pure ([], Locked.deref_mut m self f)
  locked_op read self = pure (Locked.deref m self ∷ [], self)

  unfoldable pub locked_ops : List (LockedOp T) → Locked T S → M (List T × Locked T S)
  locked_ops [] self = pure ([], self)
  locked_ops (o ∷ os) self = do r ← locked_op o self; s ← locked_ops os r.1; pure (r.0 ++ s.0, s.1)

module _ {T S : Type 0} (m : Mutex S) (key : S → ℕ) (laws : LockLaws m key) (k : Kernel)
    (low : (l : Log) → Returns (m.irql_ok k l) (λ fine l'. fine ≡ true)) where
  -- The answers, the content and the lock after an operation, or a sequence of them.
  abbrev pub Follows : Locked T S → T × List T → Log → List T × Locked T S → Log → Type 0
  Follows self expected l r l' =
      (r.0 ≡ expected.1)
      × (r.1.content ≡ expected.0)
      × (key r.1.mutex ≡ key self.mutex)
      × Balanced (key self.mutex) l l'

  locked_op-Follows :
      (o : LockedOp T) (self : Locked T S) (l : Log)
      → Returns (locked_op m o self k l) (Follows self (variable o self.content) l)
  unfolding locked_op Locked.guard_new
  locked_op-Follows (assign w) self l = (refl, refl, refl, ground arith)
  locked_op-Follows (modify f) self l = (refl, refl, refl, omega arith)
  locked_op-Follows (write f) self l = (refl, refl, refl, omega arith)
  locked_op-Follows read self l = (refl, refl, refl, omega arith)
  locked_op-Follows (change f) self l =
      let (fine, l1, e1, same) = irql_ok_run m key laws self.mutex k l in
      let yes_fine : fine ≡ true = subst (λ r. Returns r (λ b l'. b ≡ true)) e1 (low l) in
      let (s, l2, e2, held) = lock_run m key laws self.mutex k l1 in
      let (s', l3, e3, freed) = unlock_run m key laws s k l2 in
      rw (e1, yes_fine, e2, e3) (refl, refl, freed.0 ∙ held.0, ground arith)
  locked_op-Follows clone self l =
      let (fine, l1, e1, same) = irql_ok_run m key laws self.mutex k l in
      let yes_fine : fine ≡ true = subst (λ r. Returns r (λ b l'. b ≡ true)) e1 (low l) in
      let (s, l2, e2, held) = lock_run m key laws self.mutex k l1 in
      let (s', l3, e3, freed) = unlock_run m key laws s k l2 in
      rw (e1, yes_fine, e2, e3) (refl, refl, freed.0 ∙ held.0, ground arith)

  locked_ops-Follows :
      (os : List (LockedOp T)) (self : Locked T S) (l : Log)
      → Returns (locked_ops m os self k l) (Follows self (variables os self.content) l)
  unfolding locked_ops
  locked_ops-Follows [] self l = (refl, refl, refl, omega arith)
  locked_ops-Follows (o ∷ os) self l =
      let (r, l1, e1, (same, content, lock, holds)) =
        Returns-run {P = Follows self (variable o self.content) l} (locked_op m o self k l)
          (locked_op-Follows o self l) in
      let (s, l2, e2, (same', content', lock', holds')) =
        Returns-run {P = Follows r.1 (variables os r.1.content) l1} (locked_ops m os r.1 k l1)
          (locked_ops-Follows os r.1 l1) in
      let holds'' : Balanced (key self.mutex) l1 l2 = subst (λ p. Balanced p l1 l2) lock holds' in
      rw (e1, e2)
        (rw (same, same', content) refl, rw (content', content) refl, lock' ∙ lock, omega arith)

-- Over any kind of lock that meets the laws, at a level that is never too high, any sequence of
-- updates through guards, get_cloned, set, get_mut and dereferences on a `Locked` answers as the same
-- sequence on a variable, leaves the content that the variable has, and releases the lock as often as it
-- acquires it.
pub locked_ops_refine :
    {T S : Type 0} (m : Mutex S) (key : S → ℕ) (k : Kernel)
    → LockLaws m key
    → ((l : Log) → Returns (m.irql_ok k l) (λ fine l'. fine ≡ true))
    → (os : List (LockedOp T)) (self : Locked T S) (l : Log)
    → Returns (locked_ops m os self k l) λ r l'.
      (r.0 ≡ (variables os self.content).1)
      × (r.1.content ≡ (variables os self.content).0)
      × (key r.1.mutex ≡ key self.mutex)
      × Balanced (key self.mutex) l l'
locked_ops_refine m key k laws low os self l = locked_ops-Follows m key laws k low os self l
