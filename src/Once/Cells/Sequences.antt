-- ===== src/Once/Cells/Sequences.antt =====
-- Sequences of operations on a `LazyCell` of lazy.rs, against a variable that was computed at once.
use ksync.Base.{
  ℕ, ◌+◌, ◌≡◌, ◌≤◌, refl, arith, Bool, true, false, if◌then◌else◌, Option, none, some, List, [],
  ◌∷◌,
}
use ksync.Kernel.Ledger.{one_if}
use ksync.Once.Cells.{
  State, uninit, init, poisoned, lazy_new, lazy_get, force, lazy_get_mut, force_mut, deref,
  lazy_drop,
}

pub data LazyOp (T : Type 0) : Type 0 where
  force_it : LazyOp T  -- `LazyCell::force`
  deref_it : LazyOp T  -- `Deref`
  get_it : LazyOp T
  write_it : (T → T) → LazyOp T  -- `get_mut`, and a write through the reference
  force_write : (T → T) → LazyOp T  -- `LazyCell::force_mut`, and a write
  drop_it : LazyOp T  -- `LazyCell::drop`

-- An operation's new state, what it returns, and how often it called the closure; `none` is a panic.
abbrev pub Outcome : (T S : Type 0) → Type 0
Outcome T S = Option (S × Option T × ℕ)

module _ {T F : Type 0} (call : F → T) where
  abbrev pub by_force : Option (State T F × T × Bool) → Outcome T (State T F)
  by_force none = none
  by_force (some (s, v, ran)) = some (s, some v, one_if ran)

  abbrev pub by_drop : Option (State T F) → Outcome T (State T F)
  by_drop none = none
  by_drop (some s) = some (s, none, 0)

  unfoldable pub lazy_op : LazyOp T → State T F → Outcome T (State T F)
  lazy_op force_it s = by_force (force call s)
  lazy_op deref_it s = by_force (deref call s)
  lazy_op get_it s = some (s, lazy_get call s, 0)
  lazy_op (write_it f) s = let (s', v) = lazy_get_mut call f s in some (s', v, 0)
  lazy_op (force_write f) s = by_force (force_mut call f s)
  lazy_op drop_it s = by_drop (lazy_drop call s)

-- The reference: a variable that had its value from the start, with whether it was asked for; none
-- once it was dropped.
abbrev pub Eager : Type 0 → Type 0
Eager T = Option (T × Bool)

module _ {T : Type 0} where
  abbrev pub eager_op : LazyOp T → Eager T → Outcome T (Eager T)
  eager_op force_it (some (v, asked)) = some (some (v, true), some v, 0)
  eager_op deref_it (some (v, asked)) = some (some (v, true), some v, 0)
  eager_op get_it (some (v, asked)) = some (some (v, asked), (if asked then some v else none), 0)
  eager_op (write_it f) (some (v, true)) = some (some (f v, true), some (f v), 0)
  eager_op (write_it f) (some (v, false)) = some (some (v, false), none, 0)
  eager_op (force_write f) (some (v, asked)) = some (some (f v, true), some (f v), 0)
  eager_op drop_it (some (v, asked)) = some (none, none, 0)
  eager_op get_it none = some (none, none, 0)
  eager_op (write_it f) none = some (none, none, 0)
  eager_op o none = none

-- A sequence of operations, up to the first that panics: the answers, with `none` at the end for a
-- panic, and the calls of the closure.
module _ {T S : Type 0} (op : LazyOp T → S → Outcome T S) where
  abbrev pub after : Outcome T S → (S → List (Option (Option T)) × ℕ) → List (Option (Option T)) × ℕ
  after none rest = (none ∷ [], 0)
  after (some (s, a, n)) rest = let (answers, calls) = rest s in (some a ∷ answers, n + calls)

  unfoldable pub sequence : List (LazyOp T) → S → List (Option (Option T)) × ℕ
  sequence [] s = ([], 0)
  sequence (o ∷ os) s = after (op o s) (sequence os)

module _ {T F : Type 0} (call : F → T) where
  -- The variable that a cell stands for.
  abbrev stands_for : State T F → Eager T
  stands_for (uninit f) = some (call f, false)
  stands_for (init v) = some (v, true)
  stands_for poisoned = none

  -- Calls that a cell may still make.
  abbrev budget : State T F → ℕ
  budget (uninit f) = 1
  budget _ = 0

  -- An operation of the cell and the same of the variable.
  abbrev Agree : ℕ → Outcome T (State T F) → Outcome T (Eager T) → Type 0
  Agree b none o = o ≡ none
  Agree b (some (s, a, n)) o = (o ≡ some (stands_for s, a, 0)) × (n + budget s ≤ b)

  lazy_op-Agree :
      (o : LazyOp T) (s : State T F)
      → Agree (budget s) (lazy_op call o s) (eager_op o (stands_for s))
  unfolding lazy_op lazy_get force lazy_get_mut force_mut deref lazy_drop
  lazy_op-Agree force_it (uninit f) = (refl, omega arith)
  lazy_op-Agree force_it (init v) = (refl, omega arith)
  lazy_op-Agree force_it poisoned = refl
  lazy_op-Agree deref_it (uninit f) = (refl, omega arith)
  lazy_op-Agree deref_it (init v) = (refl, omega arith)
  lazy_op-Agree deref_it poisoned = refl
  lazy_op-Agree get_it (uninit f) = (refl, omega arith)
  lazy_op-Agree get_it (init v) = (refl, omega arith)
  lazy_op-Agree get_it poisoned = (refl, omega arith)
  lazy_op-Agree (write_it w) (uninit f) = (refl, omega arith)
  lazy_op-Agree (write_it w) (init v) = (refl, omega arith)
  lazy_op-Agree (write_it w) poisoned = (refl, omega arith)
  lazy_op-Agree (force_write w) (uninit f) = (refl, omega arith)
  lazy_op-Agree (force_write w) (init v) = (refl, omega arith)
  lazy_op-Agree (force_write w) poisoned = refl
  lazy_op-Agree drop_it (uninit f) = (refl, omega arith)
  lazy_op-Agree drop_it (init v) = (refl, omega arith)
  lazy_op-Agree drop_it poisoned = refl

  -- The answers are the variable's, and the calls are within the budget.
  abbrev Follows : ℕ → List (Option (Option T)) × ℕ → List (Option (Option T)) × ℕ → Type 0
  Follows b mine theirs = (mine.0 ≡ theirs.0) × (mine.1 ≤ b)

  sequence-Follows :
      (os : List (LazyOp T)) (s : State T F)
      → Follows (budget s) (sequence (lazy_op call) os s) (sequence eager_op os (stands_for s))
  unfolding sequence
  sequence-Follows [] s = (refl, omega arith)
  sequence-Follows (o ∷ os) s =
      each (λ s'. sequence-Follows os s') (lazy_op call o s) (eager_op o (stands_for s))
        (lazy_op-Agree o s)
    where
      each :
          (rest : (s' : State T F)
            → Follows
                (budget s')
                (sequence (lazy_op call) os s')
                (sequence eager_op os (stands_for s')))
          (mine : Outcome T (State T F)) (theirs : Outcome T (Eager T))
          → Agree (budget s) mine theirs
          → Follows
              (budget s)
              (after (lazy_op call) mine (sequence (lazy_op call) os))
              (after eager_op theirs (sequence eager_op os))
      each rest none theirs same = rw same (refl, omega arith)
      each rest (some (s', a, n)) theirs (same, spent) =
          let (answers, calls) = rest s' in rw (same, answers) (refl, omega arith)

-- Any sequence of `force`, `Deref`, `get`, writes through `get_mut` and `force_mut`, and `drop` on a
-- new `LazyCell` answers, and panics, as on a variable that had the closure's value from the start,
-- which `get` and `get_mut` show only once it was asked for, and which is gone after `drop`; and the
-- closure is called at most once.
pub lazy_ops_refine :
    {T F : Type 0} (call : F → T) (f : F) (os : List (LazyOp T))
    → ((sequence (lazy_op call) os (lazy_new call f)).0
        ≡ (sequence eager_op os (some (call f, false))).0)
      × ((sequence (lazy_op call) os (lazy_new call f)).1 ≤ 1)
unfolding lazy_new
lazy_ops_refine call f os = sequence-Follows call os (uninit f)
