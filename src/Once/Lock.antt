-- ===== src/Once/Lock.antt =====
-- lazy.rs: `OnceLock<T>`, one atomic access at a time. A thread's place in `get`, `set`,
-- `get_or_init`, `init_once` and `wait` is a `Pc`; `step` is what it does next.
use ksync.Base.{ℕ, ◌+◌, ◌==◌, ◌≡◌, Bool, true, false, Option, none, some, if◌then◌else◌}
use ksync.Once.{once_new, once_poisoned, get_state, is_completed, call_once, guard_drop, wait_over}

-- The operations that share a `&OnceLock`. `init v` is `get_or_init` with a closure that returns `v`.
pub data Op (T : Type 0) : Type 0 where
  get : Op T
  set : T → Op T
  init : T → Op T

pub data Answer (T : Type 0) : Type 0 where
  got : Option T → Answer T
  set_ok : Answer T
  set_err : T → Answer T

-- `once` and `value`; `runs` counts the calls of an initialiser and is no part of the program.
pub record OnceLock (T : Type 0) : Type 0 where
  pub word : ℕ
  pub value : Option T  -- `none` while the memory is uninitialised
  pub runs : ℕ

pub data Pc (T : Type 0) : Type 0 where
  idle : Pc T
  checking : Op T → Pc T  -- before the load of `is_initialized`
  entering : Op T → T → Pc T  -- before the exchange of `call_once`
  running : Op T → T → Pc T  -- the exchange was won: before the closure is called
  holding : Op T → T → Pc T  -- the guard holds the closure's result
  stored : Op T → Pc T  -- the value is written: before `get_unchecked`
  dropping : Op T → T → Pc T  -- before the drop of the guard
  waiting : Op T → Pc T  -- the loop of `Once::wait`
  reading : Op T → Pc T  -- before `get_unchecked` of a completed cell
  finished : Answer T → Pc T
  broken : Pc T  -- uninitialised memory was read

module _ {T : Type 0} where
  unfoldable pub new : OnceLock T
  new = record { word = once_new; value = none; runs = 0 }

  unfoldable pub is_initialized : OnceLock T → Bool
  unfolding get_state is_completed
  is_initialized m = is_completed (get_state m.word)

  -- What an operation returns once it has a reference to the value `v`. `set` ignores the reference.
  unfoldable pub answer : Op T → T → Answer T
  answer get v = got (some v)
  answer (set w) v = set_ok
  answer (init w) v = got (some v)

  -- After the first test of `is_initialized`.
  unfoldable pub checked : Bool → Op T → Pc T
  checked true get = reading get
  checked true (set w) = finished (set_err w)
  checked true (init w) = reading (init w)
  checked false get = finished (got none)
  checked false (set w) = entering (set w) w
  checked false (init w) = entering (init w) w

  unfoldable pub entered : Option ℕ → OnceLock T → Op T → T → OnceLock T × Pc T
  entered (some w) m o v = (record m { word = w }, running o v)
  entered none m o v = (m, waiting o)

  unfoldable pub read_value : Option T → (T → Pc T) → Pc T
  read_value none f = broken
  read_value (some v) f = f v

  unfoldable pub step : OnceLock T → Pc T → OnceLock T × Pc T
  unfolding is_initialized checked call_once entered read_value guard_drop wait_over answer
  step m idle = (m, idle)
  step m (checking o) = (m, checked (is_initialized m) o)
  step m (entering o v) = entered (call_once m.word) m o v
  step m (running o v) = (record m { runs = m.runs + 1 }, holding o v)
  step m (holding o v) = (record m { value = some v }, stored o)
  step m (stored o) = (m, read_value m.value (dropping o))
  step m (dropping o v) = (record m { word = guard_drop m.word }, finished (answer o v))
  step m (waiting o) = (m, if wait_over m.word then reading o else waiting o)
  step m (reading o) = (m, read_value m.value (λ v. finished (answer o v)))
  step m (finished a) = (m, finished a)
  step m broken = (m, broken)

  -- The operations that own the cell: `take` and `get_mut` borrow it mutably, `drop` is documented
  -- to be the last use.
  unfoldable pub get_mut : OnceLock T → Option T
  get_mut m = if is_initialized m then m.value else none

  unfoldable pub take : OnceLock T → OnceLock T × Option T
  unfolding is_initialized
  take m = if is_initialized m then (record m { word = once_poisoned }, m.value) else (m, none)

  -- How often the destructor of a value runs: in the associated `drop`, and in the `Drop` of the
  -- cell itself. Neither changes the word.
  unfoldable pub drops : OnceLock T → ℕ
  unfolding is_initialized
  drops m = if is_initialized m then 1 else 0

-- Threads are numbered; each holds a place. A thread that is idle or finished may begin any
-- operation, and any other thread may take its next step.
pub record System (T : Type 0) : Type 0 where
  pub mem : OnceLock T
  pub pc : ℕ → Pc T

abbrev pub update {ℓ} : {A : Type ℓ} → (ℕ → A) → ℕ → A → ℕ → A
update f i a j = if i == j then a else f j

abbrev pub is_free : {T : Type 0} → Pc T → Bool
is_free idle = true
is_free (finished a) = true
is_free _ = false

pub data Step {T : Type 0} (s : System T) : System T → Type 0 where
  begin :
      (i : ℕ) (o : Op T)
      → is_free (s.pc i) ≡ true
      → Step s (record s { pc = update s.pc i (checking o) })
  move :
      (i : ℕ)
      → Step s
          (record { mem = (step s.mem (s.pc i)).0; pc = update s.pc i (step s.mem (s.pc i)).1 })

abbrev pub start : {T : Type 0} → System T
start = record { mem = new; pc = λ i. idle }

pub data Reach {T : Type 0} : System T → Type 0 where
  here : Reach start
  next : {s t : System T} → Reach s → Step s t → Reach t
