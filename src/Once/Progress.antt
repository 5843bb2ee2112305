-- ===== src/Once/Progress.antt =====
-- `OnceLock` of lazy.rs: how many moves of its own a thread needs, whatever the others do between.
use ksync.Base.{
  inr, ◌++◌, inl, ◌⊎◌, ℕ, ◌-◌, ◌≤◌, ◌≡◌, ◌==◌, true, arith, List, [], ◌∷◌, if◌then◌else◌, count,
}
use ksync.Once.Lock.{
  Pc, checking, entering, running, holding, stored, dropping, waiting, reading, System, Reach, next,
  move, step, update, is_initialized, is_free,
}
use ksync.Once.Invariant.{Inv, Reach-Inv, is_owner}
use ksync.Once.Race.{turns-Reach, turns-append, turns}

-- The moves that a thread still needs when the cell is completed.
abbrev left : {T : Type 0} → Pc T → ℕ
left (checking o) = 2
left (entering o v) = 3
left (waiting o) = 2
left (reading o) = 1
left _ = 0

-- The moves that the owner still needs to complete the cell.
abbrev owner_left : {T : Type 0} → Pc T → ℕ
owner_left (running o v) = 4
owner_left (holding o v) = 3
owner_left (stored o) = 2
owner_left (dropping o v) = 1
owner_left _ = 0

-- The state after one move of thread `j`.
abbrev moved : {T : Type 0} → ℕ → System T → System T
moved j s = record { mem = (step s.mem (s.pc j)).0; pc = update s.pc j (step s.mem (s.pc j)).1 }

completed_move :
    {T : Type 0} (s : System T) (i j : ℕ)
    → Inv s.mem s.pc
    → s.mem.word ≡ 2
    → ((moved j s).mem.word ≡ 2)
      × (left ((moved j s).pc i) ≤ left (s.pc i) - (if j == i then 1 else 0))
unfolding step
completed_move s i j inv full =
    (ground (arith, inv.fits j, inv.owner_word j), ground (arith, inv.fits j, inv.owner_word j))

free_if_nothing_left :
    {T : Type 0} (s : System T) (i : ℕ)
    → Inv s.mem s.pc
    → s.mem.word ≡ 2
    → left (s.pc i) ≡ 0
    → is_free (s.pc i) ≡ true
free_if_nothing_left s i inv full h = ground (arith, inv.fits i, inv.owner_word i)

completed_turns :
    {T : Type 0} (is : List ℕ) (s : System T) (i : ℕ)
    → Reach s
    → s.mem.word ≡ 2
    → left (s.pc i) ≤ count i is
    → is_free ((turns is s).pc i) ≡ true
unfolding turns
completed_turns [] s i r full h = free_if_nothing_left s i (Reach-Inv r) full (omega arith)
completed_turns (j ∷ is) s i r full h =
    let (still, less) = completed_move s i j (Reach-Inv r) full in
    completed_turns is (moved j s) i (next r (move j)) still (omega arith)

-- Once the cell is completed, every operation in progress returns after three moves of its thread at
-- most, whatever the other threads do between them.
pub completed_returns :
    {T : Type 0} {s : System T} (i : ℕ) (is : List ℕ)
    → Reach s
    → is_initialized s.mem ≡ true
    → 3 ≤ count i is
    → is_free ((turns is s).pc i) ≡ true
unfolding is_initialized
completed_returns {s} i is r full h =
    completed_turns is s i r (ground arith) (omega (arith, at_most (s.pc i)))
  where
    at_most : {T : Type 0} (p : Pc T) → left p ≤ 3
    at_most p = ground arith

owner_move :
    {T : Type 0} (s : System T) (i j : ℕ)
    → Inv s.mem s.pc
    → is_owner (s.pc j) ≡ true
    → ((moved i s).mem.word ≡ 2)
      ⊎ ((is_owner ((moved i s).pc j) ≡ true)
          × (owner_left ((moved i s).pc j) ≤ owner_left (s.pc j) - (if i == j then 1 else 0)))
unfolding step
owner_move s i j inv owner =
    ground (arith, inv.fits i, inv.owner_word i, inv.owner_word j, inv.owner_unique i j)

full_turns :
    {T : Type 0} (is : List ℕ) (s : System T) → Reach s → s.mem.word ≡ 2 → (turns is s).mem.word ≡ 2
unfolding turns
full_turns [] s r full = full
full_turns (j ∷ is) s r full =
    full_turns is (moved j s) (next r (move j)) (completed_move s j j (Reach-Inv r) full).0

owner_turns :
    {T : Type 0} (is : List ℕ) (s : System T) (j : ℕ)
    → Reach s
    → is_owner (s.pc j) ≡ true
    → owner_left (s.pc j) ≤ count j is
    → (turns is s).mem.word ≡ 2
unfolding turns
owner_turns [] s j r owner h = absurd (ground arith)
owner_turns (i ∷ is) s j r owner h = elim (owner_move s i j (Reach-Inv r) owner) [
  | inl full ↦ full_turns is (moved i s) (next r (move i)) full
  | inr (still, less) ↦ owner_turns is (moved i s) j (next r (move i)) still (omega arith)
]

-- In any schedule that gives four moves to the thread that runs the initialiser and then three to
-- another thread, with any moves of any threads between them, that other thread's operation returns.
pub fair_returns :
    {T : Type 0} {s : System T} (i j : ℕ) (is js : List ℕ)
    → Reach s
    → is_owner (s.pc j) ≡ true
    → 4 ≤ count j is
    → 3 ≤ count i js
    → is_free ((turns (is ++ js) s).pc i) ≡ true
unfolding is_initialized
fair_returns {s} i j is js r owner h g =
    rw (turns-append is js s) (completed_returns i js (turns-Reach is s r) (ground (arith, full)) g)
  where
    full : (turns is s).mem.word ≡ 2
    full = owner_turns is s j r owner (ground (arith, h))
