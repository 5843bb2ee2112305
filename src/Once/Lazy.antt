-- ===== src/Once/Lazy.antt =====
-- lazy.rs: `LazyLock<T, F>`, one access of shared memory at a time. The union `Data` holds the closure
-- or the value; `result` is what the closure returns.
use ksync.Base.{ℕ, ◌+◌, ◌≡◌, Bool, true, false, Option, none, some, if◌then◌else◌}
use ksync.Once.{
  initial, CallState, call_initial, call_in_progress, call_completed, call_poisoned, get_state,
  is_completed, call_once, guard_drop, wait_over,
}
use ksync.Once.Lock.{update}

pub data Slot (T : Type 0) : Type 0 where
  closure : Slot T
  value : T → Slot T

-- `once` and `data`. `runs` counts the calls of the closure and `copies_dropped` the destructions of
-- a copy of it that was read out of the union; neither is part of the program.
pub record LazyLock (T : Type 0) : Type 0 where
  pub word : ℕ
  pub slot : Slot T
  pub runs : ℕ
  pub copies_dropped : ℕ

-- A thread's place in `force`, `really_init`, `call_once` and `force_wait`.
pub data Pc (T : Type 0) : Type 0 where
  idle : Pc T
  checking : Pc T  -- before the load of `force`
  taking : Pc T  -- before `ManuallyDrop::take(&mut data.f)`
  racing : (valid : Bool) → Pc T  -- before the exchange, with a copy of the union's closure
  running : (valid : Bool) → Pc T  -- the exchange was won: before the closure is called
  holding : T → Pc T
  stored : Pc T
  dropping : T → Pc T
  waiting : Pc T
  reading : Pc T
  finished : T → Pc T
  panicked : Pc T  -- "LazyLock is call_poisoned"
  broken : Pc T  -- the union was read as what it does not hold

module _ {T : Type 0} where
  unfoldable pub new : LazyLock T
  new = record { word = initial; slot = closure; runs = 0; copies_dropped = 0 }

  unfoldable pub dispatch : CallState → Pc T
  dispatch call_initial = taking
  dispatch call_in_progress = waiting
  dispatch call_completed = reading
  dispatch call_poisoned = panicked

  -- Whether a copy of the union, taken as a closure, is one.
  unfoldable pub holds_closure : Slot T → Bool
  holds_closure closure = true
  holds_closure (value v) = false

  unfoldable pub read_slot : Slot T → (T → Pc T) → Pc T
  read_slot closure f = broken
  read_slot (value v) f = f v

  -- A thread that loses the exchange drops its copy of the closure: `call_once` took it by value.
  unfoldable pub entered : Option ℕ → LazyLock T → Bool → LazyLock T × Pc T
  entered (some w) m valid = (record m { word = w }, running valid)
  entered none m valid = (record m { copies_dropped = m.copies_dropped + 1 }, waiting)

  unfoldable pub step : (result : T) → LazyLock T → Pc T → LazyLock T × Pc T
  unfolding dispatch holds_closure read_slot entered call_once get_state guard_drop wait_over
  step result m idle = (m, idle)
  step result m checking = (m, dispatch (get_state m.word))
  step result m taking = (m, racing (holds_closure m.slot))
  step result m (racing valid) = entered (call_once m.word) m valid
  step result m (running true) = (record m { runs = m.runs + 1 }, holding result)
  step result m (running false) = (m, broken)
  step result m (holding v) = (record m { slot = value v }, stored)
  step result m stored = (m, read_slot m.slot dropping)
  step result m (dropping v) = (record m { word = guard_drop m.word }, finished v)
  step result m waiting = (m, if wait_over m.word then reading else waiting)
  step result m reading = (m, read_slot m.slot finished)
  step result m (finished v) = (m, finished v)
  step result m panicked = (m, panicked)
  step result m broken = (m, broken)

  unfoldable pub is_initialized : LazyLock T → Bool
  unfolding get_state is_completed
  is_initialized m = is_completed (get_state m.word)

  -- `get` and `get_mut`.
  unfoldable pub get : LazyLock T → Option T
  unfolding is_initialized
  get m = if is_initialized m then elim m.slot [ closure ↦ none | value v ↦ some v ] else none

-- What a drop destroys; `misread` if the union is taken for what it does not hold.
pub data Destroyed (T : Type 0) : Type 0 where
  nothing : Destroyed T
  the_closure : Destroyed T
  the_value : T → Destroyed T
  misread : Destroyed T

module _ {T : Type 0} where
  unfoldable pub destroy_closure : Slot T → Destroyed T
  destroy_closure closure = the_closure
  destroy_closure (value v) = misread

  unfoldable pub destroy_value : Slot T → Destroyed T
  destroy_value closure = misread
  destroy_value (value v) = the_value v

  -- The `Drop` of the cell.
  unfoldable pub drop_in : CallState → Slot T → Destroyed T
  unfolding destroy_closure destroy_value
  drop_in call_initial slot = destroy_closure slot
  drop_in call_completed slot = destroy_value slot
  drop_in _ slot = nothing

  unfoldable pub drop_cell : LazyLock T → Destroyed T
  unfolding drop_in get_state
  drop_cell m = drop_in (get_state m.word) m.slot

  -- The associated `drop`, which a user calls on a static; `none` is a panic.
  unfoldable pub drop_static : LazyLock T → Option (Destroyed T)
  unfolding destroy_closure destroy_value get_state
  drop_static m = elim (get_state m.word) [
    | call_initial ↦ some (destroy_closure m.slot)
    | call_completed ↦ some (destroy_value m.slot)
    | call_in_progress ↦ none
    | call_poisoned ↦ none
  ]

pub record System (T : Type 0) : Type 0 where
  pub mem : LazyLock T
  pub pc : ℕ → Pc T

abbrev pub is_free : {T : Type 0} → Pc T → Bool
is_free idle = true
is_free (finished a) = true
is_free _ = false

pub data Step {T : Type 0} (result : T) (s : System T) : System T → Type 0 where
  begin :
      (i : ℕ) → is_free (s.pc i) ≡ true → Step result s (record s { pc = update s.pc i checking })
  move :
      (i : ℕ)
      → Step result s (record {
        mem = (step result s.mem (s.pc i)).0;
        pc = update s.pc i (step result s.mem (s.pc i)).1;
      })

abbrev pub start : {T : Type 0} → System T
start = record { mem = new; pc = λ i. idle }

pub data Reach {T : Type 0} (result : T) : System T → Type 0 where
  here : Reach result start
  next : {s t : System T} → Reach result s → Step result s t → Reach result t
