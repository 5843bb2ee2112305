-- ===== src/Once/Refine.antt =====
-- `OnceLock` of lazy.rs as a cell that is written at most once: the abstract cell is empty until the
-- guard is dropped, and then holds the value.
use ksync.Base.{◌≡◌, ◌⊎◌, Option, none, some, if◌then◌else◌, arith, ℕ}
use ksync.Once.Lock.{
  Op, get, set, init, Answer, got, set_ok, set_err, OnceLock, Pc, checking, reading, dropping,
  finished, System, Reach, step, is_initialized,
}
use ksync.Once.Invariant.{Inv, Reach-Inv}

-- The abstract cell.
unfoldable pub contents : {T : Type 0} → OnceLock T → Option T
unfolding is_initialized
contents m = if is_initialized m then m.value else none

-- What the specification makes of an operation that meets the cell `c` with its first test: a `set` of
-- a full cell gives its value back at once, a `get` of an empty one returns nothing, and nothing else
-- returns.
abbrev pub First : {T : Type 0} → Option T → Op T → Pc T → Type 0
First (some v) (set w) after = after ≡ finished (set_err w)
First none get after = after ≡ finished (got none)
First c o (finished a) = ⊥
First c o after = Unit

-- What an operation that returns later answers for a cell that holds `v`.
abbrev pub full_answer : {T : Type 0} → Op T → T → Answer T
full_answer get v = got (some v)
full_answer (set w) v = set_ok
full_answer (init w) v = got (some v)

abbrev pub Later : {T : Type 0} → Option T → Op T → Pc T → Type 0
Later none o (finished a) = ⊥
Later (some v) o (finished a) = a ≡ full_answer o v
Later c o after = Unit

-- A move from `before` to `after`, on a cell that is `c` after it.
abbrev pub Returned : {T : Type 0} → Option T → (before after : Pc T) → Type 0
Returned c (checking o) after = First c o after
Returned c (reading o) after = Later c o after
Returned c (dropping o v) after = Later c o after
Returned c (finished b) after = after ≡ finished b
Returned c before (finished a) = ⊥
Returned c before after = Unit

-- Every move of a thread leaves the abstract cell alone or fills an empty one. A `set` whose first test
-- meets a full cell returns Err with its value in that move, a `get` whose test meets an empty one
-- returns nothing, and no operation else returns in its first move. One that returns later does so on a
-- full cell, a `get` and an `init` with what it holds; a `set` then with Ok, also when the value is
-- another thread's.
pub move_refines :
    {T : Type 0} {s : System T} (i : ℕ)
    → Reach s
    → ((contents (step s.mem (s.pc i)).0 ≡ contents s.mem) ⊎ (contents s.mem ≡ none))
      × Returned (contents (step s.mem (s.pc i)).0) (s.pc i) (step s.mem (s.pc i)).1
unfolding contents step
move_refines {s} i r = (
  ground (arith, inv.cell.small, inv.fits i, inv.owner_word i),
  ground (arith, inv.cell.full, inv.fits i, inv.owner_word i),
)
  where
    inv : Inv s.mem s.pc
    inv = Reach-Inv r
