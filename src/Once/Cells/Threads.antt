-- ===== src/Once/Cells/Threads.antt =====
-- `LazyCell<T, F>` of lazy.rs shared by threads: it is `Sync`, and its documentation asks the caller to
-- have it initialised before threads use it at the same time. One access of the cell at a time;
-- `result` is what the closure returns.
pub mod Careful
pub mod Returns
use ksync.Base.{ℕ, ◌+◌, ◌≡◌, ◌⊎◌, Bool, true, false, Option, none, some}
use ksync.Once.Lock.{update}
use ksync.Once.Cells.{State, uninit, init, poisoned, lazy_get}

pub data Op : Type 0 where
  force : Op
  get : Op

-- A thread's place in `force`, `really_init` and `get`.
pub data Place (T : Type 0) : Type 0 where
  idle : Place T
  checking : Place T  -- before the match of `force`
  taking : Place T  -- before the read of `mem::replace`
  poisoning : (valid : Bool) → Place T  -- before its write, with a closure if `valid`
  calling : Place T
  writing : T → Place T
  reading : Place T  -- before the last match of `really_init`
  looking : Place T  -- before the match of `get`
  forced : T → Place T
  got : Option T → Place T
  panicked : Place T  -- the cell was found poisoned
  broken : Place T  -- `unreachable!`

-- `runs` counts the calls of the closure, and is no part of the program.
pub record LazyCell (T : Type 0) : Type 0 where
  pub state : State T (Unit {0})
  pub runs : ℕ

module _ {T : Type 0} where
  unfoldable pub new : LazyCell T
  new = record { state = uninit tt; runs = 0 }

  unfoldable pub first : Op → Place T
  first force = checking
  first get = looking

  unfoldable pub dispatch : State T (Unit {0}) → Place T
  dispatch (uninit f) = taking
  dispatch (init v) = forced v
  dispatch poisoned = panicked

  unfoldable pub holds_closure : State T (Unit {0}) → Bool
  holds_closure (uninit f) = true
  holds_closure _ = false

  unfoldable pub read_back : State T (Unit {0}) → Place T
  read_back (init v) = forced v
  read_back _ = broken

  unfoldable pub step : (result : T) → LazyCell T → Place T → LazyCell T × Place T
  unfolding dispatch holds_closure read_back lazy_get
  step result m checking = (m, dispatch m.state)
  step result m taking = (m, poisoning (holds_closure m.state))
  step result m (poisoning true) = (record m { state = poisoned }, calling)
  step result m (poisoning false) = (record m { state = poisoned }, broken)
  step result m calling = (record m { runs = m.runs + 1 }, writing result)
  step result m (writing v) = (record m { state = init v }, reading)
  step result m reading = (m, read_back m.state)
  step result m looking = (m, got (lazy_get (λ f. result) m.state))
  step result m p = (m, p)

  abbrev pub is_free : Place T → Bool
  is_free idle = true
  is_free (forced v) = true
  is_free (got a) = true
  is_free _ = false

  abbrev pub is_init : State T (Unit {0}) → Bool
  is_init (init v) = true
  is_init _ = false

pub record System (T : Type 0) : Type 0 where
  pub cell : LazyCell T
  pub place : ℕ → Place T

-- What the documentation asks of the caller: while the cell is not initialised, a thread may begin an
-- operation only if no other is in one.
abbrev pub Allowed : {T : Type 0} → System T → Type 0
Allowed s = (is_init s.cell.state ≡ true) ⊎ ((j : ℕ) → is_free (s.place j) ≡ true)

-- `Rule` is what a thread that begins must meet.
module _ {T : Type 0} (Rule : System T → Type 0) (result : T) where
  pub data Step (s : System T) : System T → Type 0 where
    begin :
        (i : ℕ) (o : Op)
        → is_free (s.place i) ≡ true
        → Rule s
        → Step s (record s { place = update s.place i (first o) })
    move :
        (i : ℕ)
        → Step s (record {
          cell = (step result s.cell (s.place i)).0;
          place = update s.place i (step result s.cell (s.place i)).1;
        })

  abbrev pub start : System T
  start = record { cell = new; place = λ i. idle }

  pub data Reach : System T → Type 0 where
    here : Reach start
    next : {s t : System T} → Reach s → Step s t → Reach t
