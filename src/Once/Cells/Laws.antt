-- ===== src/Once/Cells/Laws.antt =====
-- What the single-threaded cells of lazy.rs promise.
use ksync.Base.{Bool, if◌then◌else◌, ◌≡◌, false, Option, none, some, is_some, ok, err, arith}
use ksync.Once.Cells.{
  init, lazy_get_mut, deref, force_mut, State, lazy_get, force, into_inner, lazy_drop, get, set,
  get_or_init, take,
}

-- Once a `force` has returned `v`, the next one returns `v` from the same state without calling
-- the closure, and `get` and `into_inner` agree with it.
pub force_again :
    {T F : Type 0} (call : F → T) (s s' : State T F) (v : T) (ran : Bool)
    → force call s ≡ some (s', v, ran)
    → (force call s' ≡ some (s', v, false))
      × (lazy_get call s' ≡ some v)
      × (into_inner call s' ≡ some (ok v))
unfolding force lazy_get into_inner
force_again call s s' v ran h = (ground arith, ground arith, ground arith)

abbrev chain : {A B : Type 0} → Option A → (A → Option B) → Option B
chain none f = none
chain (some a) f = f a

-- A cell that was dropped panics on every later `force`, `into_inner` and `drop`.
pub lazy_drop-final :
    {T F : Type 0} (call : F → T) (s : State T F)
    → (chain (lazy_drop call s) (force call) ≡ none)
      × (chain (lazy_drop call s) (into_inner call) ≡ none)
      × (chain (lazy_drop call s) (lazy_drop call) ≡ none)
unfolding force into_inner lazy_drop
lazy_drop-final call s = (ground arith, ground arith, ground arith)

-- After a `set` of a cell, a further `set` hands its value back, `get_or_init` changes nothing and
-- returns nothing, `get` returns the first value, and `take` returns it and empties the cell.
pub first_write_wins :
    {T : Type 0} (cell : Option T) (v w : T)
    → (set (set cell v).0 w ≡ ((set cell v).0, err w))
      × (get_or_init (set cell v).0 w ≡ ((set cell v).0, none))
      × (get (set cell v).0 ≡ (if is_some cell then cell else some v))
      × (take (set cell v).0 ≡ (none, get (set cell v).0))
unfolding get set get_or_init take
first_write_wins cell v w = (ground arith, ground arith, ground arith, ground arith)

-- What is written through `force_mut` stays: the next `force`, `Deref`, `get` and `get_mut` see it and the
-- closure is not called again; and a `force_mut` that writes nothing is `force`.
pub force_mut-stays :
    {T F : Type 0} (call : F → T) (write : T → T) (s s' : State T F) (v : T) (ran : Bool)
    → force_mut call write s ≡ some (s', v, ran)
    → (force call s' ≡ some (s', v, false))
      × (deref call s' ≡ some (s', v, false))
      × (lazy_get call s' ≡ some v)
      × (lazy_get_mut call write s' ≡ (init (write v), some (write v)))
      × (force_mut call (λ w. w) s ≡ force call s)
unfolding force force_mut deref lazy_get lazy_get_mut
force_mut-stays call write s s' v ran h =
    (ground arith, ground arith, ground arith, ground arith, ground arith)
