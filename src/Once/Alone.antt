-- ===== src/Once/Alone.antt =====
-- `OnceLock` of lazy.rs used by one thread, against a reference of a few lines.
use ksync.Base.{ℕ, zero, suc, ◌≡◌, refl, Bool, true, false, Option, none, some, List, [], ◌∷◌}
use ksync.Once.Lock.{
  Op, get, set, init, Answer, got, set_ok, set_err, OnceLock, Pc, checking, finished, step, new,
  get_mut, take, is_initialized,
}

-- What the one thread does: an operation that shares the cell, a write through `get_mut` with the
-- answer whether there was a value, or `is_initialized`.
pub data Use (T : Type 0) : Type 0 where
  share : Op T → Use T
  change : (T → T) → Use T
  test : Use T

-- The place that the thread ends at, or the Boolean that it gets.
pub data Reply (T : Type 0) : Type 0 where
  ended : Pc T → Reply T
  told : Bool → Reply T

-- The reference: a cell of at most one value, and an operation of it.
abbrev pub reference : {T : Type 0} → Op T → Option T → Option T × Answer T
reference get cell = (cell, got cell)
reference (set v) none = (some v, set_ok)
reference (set v) (some w) = (some w, set_err v)
reference (init v) none = (some v, got (some v))
reference (init v) (some w) = (some w, got (some w))

abbrev pub reference_use : {T : Type 0} → Use T → Option T → Option T × Reply T
reference_use (share o) cell = ((reference o cell).0, ended (finished (reference o cell).1))
reference_use (change f) none = (none, told false)
reference_use (change f) (some v) = (some (f v), told true)
reference_use test none = (none, told false)
reference_use test (some v) = (some v, told true)

-- The answers, and what the last operation, `take`, returns.
abbrev pub reference_all : {T : Type 0} → List (Use T) → Option T → List (Reply T) × Option T
reference_all [] cell = ([], cell)
reference_all (o ∷ os) cell =
    let rest = reference_all os (reference_use o cell).0 in
    ((reference_use o cell).1 ∷ rest.0, rest.1)

-- Some steps of one thread.
abbrev pub steps : {T : Type 0} → ℕ → OnceLock T × Pc T → OnceLock T × Pc T
steps zero s = s
steps (suc n) s = steps n (step s.0 s.1)

-- An operation of a thread that is alone: six steps are enough.
unfoldable pub operate : {T : Type 0} → Op T → OnceLock T → OnceLock T × Pc T
unfolding step
operate o m = steps 6 (m, checking o)

-- A write through the reference of `get_mut`.
unfoldable pub changed : {T : Type 0} → (T → T) → Option T → OnceLock T → OnceLock T × Reply T
changed f none m = (m, told false)
changed f (some v) m = (record m { value = some (f v) }, told true)

unfoldable pub use_one : {T : Type 0} → Use T → OnceLock T → OnceLock T × Reply T
unfolding operate changed get_mut is_initialized
use_one (share o) m = let r = operate o m in (r.0, ended r.1)
use_one (change f) m = changed f (get_mut m) m
use_one test m = (m, told (is_initialized m))

unfoldable pub operate_all : {T : Type 0} → List (Use T) → OnceLock T → List (Reply T) × Option T
unfolding use_one take
operate_all [] m = ([], (take m).1)
operate_all (o ∷ os) m =
    let r = use_one o m in let rest = operate_all os r.0 in (r.1 ∷ rest.0, rest.1)

-- The lock that represents a cell.
abbrev repr : {T : Type 0} → Option T → OnceLock T
repr none = record { word = 0; value = none; runs = 0 }
repr (some v) = record { word = 2; value = some v; runs = 1 }

operate-repr :
    {T : Type 0} (o : Op T) (cell : Option T)
    → operate o (repr cell) ≡ (repr (reference o cell).0, finished (reference o cell).1)
unfolding operate
operate-repr get none = refl
operate-repr get (some v) = refl
operate-repr (set w) none = refl
operate-repr (set w) (some v) = refl
operate-repr (init w) none = refl
operate-repr (init w) (some v) = refl

use_one-repr :
    {T : Type 0} (o : Use T) (cell : Option T)
    → use_one o (repr cell) ≡ (repr (reference_use o cell).0, (reference_use o cell).1)
unfolding use_one
use_one-repr (share o) cell = rw (operate-repr o cell) refl
use_one-repr (change f) none = refl
use_one-repr (change f) (some v) = refl
use_one-repr test none = refl
use_one-repr test (some v) = refl

operate_all-repr :
    {T : Type 0} (os : List (Use T)) (cell : Option T)
    → operate_all os (repr cell) ≡ reference_all os cell
unfolding operate_all
operate_all-repr [] none = refl
operate_all-repr [] (some v) = refl
operate_all-repr (o ∷ os) cell =
    rw (use_one-repr o cell, operate_all-repr os (reference_use o cell).0) refl

-- Any sequence of `get`, `set`, `get_or_init`, `is_initialized` and writes through `get_mut` by one
-- thread on a new `OnceLock` returns, each of the first three within six steps, with the answers of the
-- reference, and a `take` at the end returns what the reference holds.
pub operate_all-reference_all :
    {T : Type 0} (os : List (Use T)) → operate_all os new ≡ reference_all os none
unfolding new
operate_all-reference_all os = operate_all-repr os none
