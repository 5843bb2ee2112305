-- ===== src/Tests/Cells.antt =====
-- Cells: races of two threads, and the cells for one thread.
use ksync.Once.Lazy.{is_free}
use ksync.Base.{
  not, ◌&&◌, inr, false, ◌+◌, zero, suc, ◌++◌, ◌⊎◌, ℕ, ◌≤◌, ◌≡◌, refl, true, none, some, List, [],
  ◌∷◌, arith, if◌then◌else◌, ◌==◌,
}
use ksync.Once.Lock
use ksync.Once.Lock.{
  drops, get_mut, take, Op, get, set, init, entering, waiting, finished, broken, got, set_ok,
  System, Step, Reach, here, next, begin, move, start, step, update, is_initialized, answer,
}
use ksync.Once.Cells
use ksync.Once.Cells.Sequences as CellOps
use ksync.Once.Cells.Threads as CellThreads
use ksync.Once.Cells.Threads.Returns
use ksync.Once.Race.{Sees, turns, turns-Reach, once_only, set_race}
use ksync.Once.Lazy
use ksync.Once.Ownership.{rest_accounts}
use ksync.Once.LazyRace
use ksync.Once.LazyProgress
use ksync.Once.LazyRefine
use ksync.Once.Progress.{fair_returns}
use ksync.Once.Refine.{contents, Returned, move_refines}
use ksync.Once.Alone.{
  Use, share, change, test, operate_all, reference_all, operate_all-reference_all,
}

-- Threads 0 and 1 have begun an operation each.
abbrev begun : Op ℕ → Op ℕ → System ℕ
begun a b = record {
  mem = start.mem;
  pc = update (update start.pc 0 (Lock.checking a)) 1 (Lock.checking b);
}

begun-Reach : (a b : Op ℕ) → Reach (begun a b)
begun-Reach a b = next (next here (begin 0 a refl)) (begin 1 b refl)

-- Both pass the test, thread 0 wins and initialises the cell with 7, thread 1 waits.
abbrev race : System ℕ
race = turns (0 ∷ 1 ∷ 0 ∷ 1 ∷ 0 ∷ 0 ∷ []) (begun (init 7) (init 8))

race-Reach : Reach race
race-Reach = turns-Reach (0 ∷ 1 ∷ 0 ∷ 1 ∷ 0 ∷ 0 ∷ []) _ (begun-Reach (init 7) (init 8))

-- The same, after thread 0 has returned.
abbrev over : System ℕ
over = turns (0 ∷ 0 ∷ []) race

over-Reach : Reach over
over-Reach = turns-Reach (0 ∷ 0 ∷ []) race race-Reach

once_only_example : (over.mem.runs ≤ 1) × Sees over.mem.value (over.pc 1)
once_only_example = once_only 1 over-Reach

-- Thread 0 is in the initialiser and thread 1 waits.
abbrev waiting_race : System ℕ
waiting_race = turns (0 ∷ 1 ∷ 0 ∷ 1 ∷ []) (begun (init 7) (init 8))

fair_returns_example :
    Lock.is_free ((turns ((0 ∷ 1 ∷ 0 ∷ 0 ∷ 0 ∷ []) ++ 1 ∷ 1 ∷ 1 ∷ []) waiting_race).pc 1) ≡ true
unfolding turns step Lock.new
fair_returns_example =
    fair_returns {s = waiting_race} 1 0 (0 ∷ 1 ∷ 0 ∷ 0 ∷ 0 ∷ []) (1 ∷ 1 ∷ 1 ∷ [])
      (turns-Reach (0 ∷ 1 ∷ 0 ∷ 1 ∷ []) _ (begun-Reach (init 7) (init 8))) refl (omega arith)
      (omega arith)

move_refines_example :
    ((contents (step over.mem (over.pc 1)).0 ≡ contents over.mem) ⊎ (contents over.mem ≡ none))
    × Returned (contents (step over.mem (over.pc 1)).0) (over.pc 1) (step over.mem (over.pc 1)).1
move_refines_example = move_refines {s = over} 1 over-Reach

abbrev some_ops : List (Use ℕ)
some_ops =
    share get
    ∷ test
    ∷ share (set 4)
    ∷ share (set 5)
    ∷ change (λ n. n + 1)
    ∷ share (init 6)
    ∷ test
    ∷ []

operate_all-reference_all_example : operate_all some_ops Lock.new ≡ reference_all some_ops none
operate_all-reference_all_example = operate_all-reference_all some_ops

-- Both threads have returned.
abbrev at_rest : System ℕ
at_rest = turns (1 ∷ 1 ∷ []) over

at_rest-IsFree : (i : ℕ) → Lock.is_free (at_rest.pc i) ≡ true
unfolding turns step Lock.new
at_rest-IsFree zero = refl
at_rest-IsFree (suc zero) = refl
at_rest-IsFree (suc (suc i)) = ground arith

rest_accounts_example :
    (drops at_rest.mem ≡ at_rest.mem.runs)
    × (get_mut at_rest.mem ≡ at_rest.mem.value)
    × ((take at_rest.mem).1 ≡ at_rest.mem.value)
    × (drops (take at_rest.mem).0 ≡ 0)
rest_accounts_example =
    rest_accounts {s = at_rest} (turns-Reach (1 ∷ 1 ∷ []) over over-Reach) at_rest-IsFree

-- Both threads have passed the test of `set`.
abbrev setters : System ℕ
setters = turns (0 ∷ 1 ∷ []) (begun (set 7) (set 8))

set_race_example :
    (t : System ℕ) × Reach t
    × (t.mem.value ≡ some 7)
    × (t.pc 0 ≡ finished set_ok)
    × (t.pc 1 ≡ finished set_ok)
unfolding turns step Lock.new
set_race_example =
    set_race {s = setters} 0 1 7 8 (turns-Reach (0 ∷ 1 ∷ []) _ (begun-Reach (set 7) (set 8)))
      (omega arith) refl refl refl

-- Two threads have read the closure of a fresh `LazyLock`.
abbrev lazy_start : Lazy.System ℕ
lazy_start = Lazy.start

abbrev lazy_turn : ℕ → Lazy.System ℕ → Lazy.System ℕ
lazy_turn i s = record {
  mem = (Lazy.step 5 s.mem (s.pc i)).0;
  pc = update s.pc i (Lazy.step 5 s.mem (s.pc i)).1;
}

abbrev lazy_begun : Lazy.System ℕ
lazy_begun = record lazy_start {
  pc = update (update lazy_start.pc 0 Lazy.checking) 1 Lazy.checking;
}

abbrev lazy_race : Lazy.System ℕ
lazy_race = lazy_turn 1 (lazy_turn 0 (lazy_turn 1 (lazy_turn 0 lazy_begun)))

lazy_race-Reach : Lazy.Reach 5 lazy_race
lazy_race-Reach =
    Lazy.next
      (Lazy.next
        (Lazy.next
          (Lazy.next (Lazy.next (Lazy.next Lazy.here (Lazy.begin 0 refl)) (Lazy.begin 1 refl))
            (Lazy.move 0))
          (Lazy.move 1))
        (Lazy.move 0))
      (Lazy.move 1)

force_once_example : (lazy_race.mem.runs ≤ 1) × LazyRace.Outcome 5 lazy_race.mem (lazy_race.pc 0)
force_once_example = LazyRace.force_once 0 lazy_race-Reach

-- Both threads are before the read of the closure.
abbrev lazy_taking : Lazy.System ℕ
lazy_taking = lazy_turn 1 (lazy_turn 0 lazy_begun)

lazy_taking-Reach : Lazy.Reach 5 lazy_taking
lazy_taking-Reach =
    Lazy.next
      (Lazy.next (Lazy.next (Lazy.next Lazy.here (Lazy.begin 0 refl)) (Lazy.begin 1 refl))
        (Lazy.move 0))
      (Lazy.move 1)

late_take-misreads_example :
    (t : Lazy.System ℕ) × Lazy.Reach 5 t
    × (t.mem.slot ≡ Lazy.value 5)
    × (t.pc 1 ≡ Lazy.racing false)
    × ((Lazy.step 5 t.mem (t.pc 1)).1 ≡ Lazy.waiting)
    × ((Lazy.step 5 t.mem (t.pc 1)).0.copies_dropped ≡ 1)
unfolding Lazy.step Lazy.new
late_take-misreads_example =
    LazyRace.late_take-misreads {s = lazy_taking} 0 1 lazy_taking-Reach (omega arith) refl refl refl

-- Thread 0 runs the closure; thread 1 has lost the exchange.
abbrev lazy_running : Lazy.System ℕ
lazy_running = lazy_turn 1 (lazy_turn 0 lazy_race)

lazy_running-Reach : Lazy.Reach 5 lazy_running
lazy_running-Reach = Lazy.next (Lazy.next lazy_race-Reach (Lazy.move 0)) (Lazy.move 1)

fair_force_returns_example :
    Lazy.is_free
      ((LazyProgress.turns 5 ((0 ∷ 1 ∷ 0 ∷ 0 ∷ 0 ∷ []) ++ 1 ∷ 1 ∷ 1 ∷ 1 ∷ []) lazy_running).pc 1)
    ≡ true
unfolding Lazy.step Lazy.new Lazy.dispatch
fair_force_returns_example =
    LazyProgress.fair_force_returns {s = lazy_running} 1 0 (0 ∷ 1 ∷ 0 ∷ 0 ∷ 0 ∷ [])
      (1 ∷ 1 ∷ 1 ∷ 1 ∷ []) lazy_running-Reach refl (omega arith) (omega arith)

double_consume_example :
    (t : Lazy.System ℕ) × Lazy.Reach 5 t × (t.mem.runs ≡ 1) × (t.mem.copies_dropped ≡ 1)
unfolding Lazy.step Lazy.new
double_consume_example =
    LazyRace.double_consume {s = lazy_race} 0 1 lazy_race-Reach (omega arith) refl refl refl

drop-right_example :
    (Lazy.drop_cell lazy_race.mem ≡ (
      if lazy_race.mem.word == 2
      then Lazy.the_value 5
      else if lazy_race.mem.word == 0
      then Lazy.the_closure
      else Lazy.nothing))
    × (Lazy.drop_static lazy_race.mem
        ≡ (if lazy_race.mem.word == 1 then none else some (Lazy.drop_cell lazy_race.mem)))
drop-right_example = LazyRace.drop-right lazy_race-Reach

-- Thread 0 has returned from `force`; thread 1 reads next.
abbrev lazy_over : Lazy.System ℕ
lazy_over = lazy_turn 1 (lazy_turn 0 (lazy_turn 0 (lazy_turn 0 lazy_running)))

lazy_over-Reach : Lazy.Reach 5 lazy_over
lazy_over-Reach =
    Lazy.next
      (Lazy.next (Lazy.next (Lazy.next lazy_running-Reach (Lazy.move 0)) (Lazy.move 0))
        (Lazy.move 0))
      (Lazy.move 1)

force_move_refines_example :
    ((Lazy.get (Lazy.step 5 lazy_over.mem (lazy_over.pc 1)).0 ≡ Lazy.get lazy_over.mem)
      ⊎ ((Lazy.get lazy_over.mem ≡ none)
          × (Lazy.get (Lazy.step 5 lazy_over.mem (lazy_over.pc 1)).0 ≡ some 5)))
    × LazyRefine.Forced
        (Lazy.get (Lazy.step 5 lazy_over.mem (lazy_over.pc 1)).0)
        (lazy_over.pc 1)
        (Lazy.step 5 lazy_over.mem (lazy_over.pc 1)).1
force_move_refines_example = LazyRefine.force_move_refines {s = lazy_over} 1 lazy_over-Reach

abbrev call_seven : Unit {0} → ℕ
call_seven u = 7

-- `get` before the first `force`, two that share the value, a write, a drop, and a `force` that panics.
abbrev cell_ops : List (CellOps.LazyOp ℕ)
cell_ops =
    CellOps.get_it
    ∷ CellOps.force_it
    ∷ CellOps.write_it (λ n. n + 1)
    ∷ CellOps.deref_it
    ∷ CellOps.drop_it
    ∷ CellOps.force_it
    ∷ []

lazy_ops_refine_example :
    ((CellOps.sequence (CellOps.lazy_op call_seven) cell_ops (Cells.lazy_new call_seven tt)).0
      ≡ (CellOps.sequence CellOps.eager_op cell_ops (some (7, false))).0)
    × ((CellOps.sequence (CellOps.lazy_op call_seven) cell_ops (Cells.lazy_new call_seven tt)).1
        ≤ 1)
lazy_ops_refine_example = CellOps.lazy_ops_refine call_seven tt cell_ops

lazy_ops_run :
    CellOps.sequence (CellOps.lazy_op call_seven) cell_ops (Cells.lazy_new call_seven tt)
    ≡ (some none ∷ some (some 7) ∷ some (some 8) ∷ some (some 8) ∷ some none ∷ none ∷ [], 1)
unfolding CellOps.sequence CellOps.lazy_op Cells.lazy_new Cells.lazy_get Cells.force
    Cells.lazy_get_mut Cells.deref Cells.lazy_drop Cells.really_init
lazy_ops_run = refl

-- Thread 0 has begun a `force` of a new `LazyCell`.
abbrev forcing : CellThreads.System ℕ
forcing = record (CellThreads.start CellThreads.Allowed 7) {
  place =
      update (CellThreads.start CellThreads.Allowed 7).place 0
        (CellThreads.first CellThreads.force);
}

abbrev six_moves : List ℕ
six_moves = 0 ∷ 0 ∷ 1 ∷ 0 ∷ 0 ∷ 0 ∷ 0 ∷ []

careful-Returned_example :
    Returns.Returned 7 ((Returns.moves 7 six_moves forcing).place 0)
    × ((CellThreads.is_init forcing.cell.state
          && not (Returns.is_miss (forcing.place 0))
          && Returns.is_miss ((Returns.moves 7 six_moves forcing).place 0))
        ≡ false)
    × ((Returns.moves 7 six_moves forcing).cell.runs ≤ 1)
careful-Returned_example =
    Returns.careful-Returned 7 0 six_moves forcing
      (CellThreads.next CellThreads.here
        (CellThreads.begin 0 CellThreads.force refl (inr (λ j. refl))))
      (omega arith)
