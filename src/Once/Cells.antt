-- ===== src/Once/Cells.antt =====
-- lazy.rs: `LazyCell<T, F>` and `OnceCell<T>`, which are for one thread. `none` is a panic.
pub mod Laws
pub mod Sequences
pub mod Threads
use ksync.Base.{ℕ, Bool, true, false, Option, none, some, Result, ok, err, is_some}

-- A closure of type `F` is what it returns when it is called.
pub data State (T F : Type 0) : Type 0 where
  uninit : F → State T F
  init : T → State T F
  poisoned : State T F

module _ {T F : Type 0} (call : F → T) where
  unfoldable pub lazy_new : F → State T F
  lazy_new f = uninit f

  unfoldable pub into_inner : State T F → Option (Result T F)
  into_inner (init v) = some (ok v)
  into_inner (uninit f) = some (err f)
  into_inner poisoned = none

  unfoldable pub lazy_get : State T F → Option T
  lazy_get (init v) = some v
  lazy_get _ = none

  -- The state is poisoned while the closure runs; the closures here return.
  unfoldable pub really_init : F → State T F × T
  really_init f = (init (call f), call f)

  -- The new state, the value, and whether the closure was called.
  unfoldable pub force : State T F → Option (State T F × T × Bool)
  unfolding really_init
  force (init v) = some (init v, v, false)
  force (uninit f) = let (s, v) = really_init f in some (s, v, true)
  force poisoned = none

  -- A mutable reference is what the caller writes through it, `write`; the value is the one written.
  unfoldable pub lazy_get_mut : (write : T → T) → State T F → State T F × Option T
  lazy_get_mut write (init v) = (init (write v), some (write v))
  lazy_get_mut write s = (s, none)

  unfoldable pub really_init_mut : (write : T → T) → F → State T F × T
  really_init_mut write f = let v = write (call f) in (init v, v)

  unfoldable pub force_mut : (write : T → T) → State T F → Option (State T F × T × Bool)
  unfolding really_init_mut
  force_mut write (init v) = some (init (write v), write v, false)
  force_mut write (uninit f) = let (s, v) = really_init_mut write f in some (s, v, true)
  force_mut write poisoned = none

  -- `Deref`.
  unfoldable pub deref : State T F → Option (State T F × T × Bool)
  unfolding force
  deref s = force s

  -- The associated `drop`: the content is destroyed, and the cell is poisoned.
  unfoldable pub lazy_drop : State T F → Option (State T F)
  lazy_drop (uninit f) = some poisoned
  lazy_drop (init v) = some poisoned
  lazy_drop poisoned = none

-- `OnceCell<T>` is its content.
module _ {T : Type 0} where
  unfoldable pub cell_new : Option T
  cell_new = none

  unfoldable pub get : Option T → Option T
  get cell = cell

  unfoldable pub get_mut : (write : T → T) → Option T → Option T × Option T
  get_mut write none = (none, none)
  get_mut write (some v) = (some (write v), some (write v))

  unfoldable pub cell_into_inner : Option T → Option T
  cell_into_inner cell = cell

  unfoldable pub set : Option T → T → Option T × Result (Unit {0}) T
  set none v = (some v, ok tt)
  set (some w) v = (some w, err v)

  unfoldable pub set_result : Option T × Result (Unit {0}) T → Option T × Option T
  set_result (cell, ok u) = (cell, cell)
  set_result (cell, err v) = (cell, none)

  -- `value` is what the closure returns; it runs only if the cell is empty.
  unfoldable pub get_or_init : Option T → T → Option T × Option T
  unfolding set set_result
  get_or_init none value = set_result (set none value)
  get_or_init (some w) value = (some w, none)

  unfoldable pub take : Option T → Option T × Option T
  take cell = (none, cell)

  unfoldable pub cell_drop : Option T → Option T
  cell_drop cell = none
