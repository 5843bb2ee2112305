-- ===== src/Once.antt =====
-- once.rs: `Once<T>`, `CallState` and `OnceGuard`, as what they do to the atomic word. Every access
-- of the word is one atomic step, in one order for all threads; the weaker orderings that the source
-- asks for are not modelled.
pub mod Lock
pub mod Invariant
pub mod Race
pub mod Progress
pub mod Refine
pub mod Alone
pub mod Ownership
pub mod LazyRefine
pub mod Lazy
pub mod LazyRace
pub mod LazyProgress
pub mod Cells
use ksync.Base.{ℕ, ◌==◌, if◌then◌else◌, Bool, true, false, Option, none, some}

abbrev pub initial : ℕ
initial = 0

abbrev pub inprogress : ℕ
inprogress = 1

abbrev pub completed : ℕ
completed = 2

abbrev pub poisoned : ℕ
poisoned = 3

-- `Once::new` and `Once::poisoned`: the word.
abbrev pub once_new : ℕ
once_new = initial

abbrev pub once_poisoned : ℕ
once_poisoned = poisoned

pub data CallState : Type 0 where
  call_initial call_in_progress call_completed call_poisoned : CallState

-- `Once::get_state`, of the word that was loaded.
unfoldable pub get_state : ℕ → CallState
get_state word =
    if word == initial
    then call_initial
    else if word == inprogress
    then call_in_progress
    else if word == completed
    then call_completed
    else call_poisoned

-- The derived `==` with `Completed`.
unfoldable pub is_completed : CallState → Bool
is_completed call_completed = true
is_completed _ = false

-- `compare_exchange`: the new word, if the old one was as expected.
unfoldable pub compare_exchange : (expected new word : ℕ) → Option ℕ
compare_exchange expected new word = if word == expected then some new else none

-- The exchange at the head of `call_once`; `some` is the right to run the initialiser.
unfoldable pub call_once : ℕ → Option ℕ
unfolding compare_exchange
call_once word = compare_exchange initial inprogress word

-- `OnceGuard::drop`: the exchange, its failure ignored.
unfoldable pub guard_drop : ℕ → ℕ
unfolding compare_exchange
guard_drop word = elim (compare_exchange inprogress completed word) [ none ↦ word | some w ↦ w ]

-- The test of the loop in `wait`: whether the loop is left.
unfoldable pub wait_over : ℕ → Bool
unfolding get_state is_completed
wait_over word = is_completed (get_state word)
