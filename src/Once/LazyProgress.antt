-- ===== src/Once/LazyProgress.antt =====
-- `LazyLock` of lazy.rs: how many moves of its own a thread needs, whatever the others do between.
use ksync.Base.{
  refl, ℕ, ◌-◌, ◌≤◌, ◌≡◌, ◌==◌, ◌⊎◌, inl, inr, true, arith, List, [], ◌∷◌, ◌++◌, if◌then◌else◌,
  count,
}
use ksync.Once.Lock.{update}
use ksync.Once.Lazy.{
  Pc, checking, taking, racing, running, holding, stored, dropping, waiting, reading, System, Reach,
  next, move, step, is_free,
}
use ksync.Once.LazyRace.{Inv, Reach-Inv, is_owner}

module _ {T : Type 0} (result : T) where
  -- The state after one move of thread `j`.
  abbrev moved : ℕ → System T → System T
  moved j s = record {
    mem = (step result s.mem (s.pc j)).0;
    pc = update s.pc j (step result s.mem (s.pc j)).1;
  }

  -- Several moves, in the order given.
  unfoldable pub turns : List ℕ → System T → System T
  turns [] s = s
  turns (i ∷ is) s = turns is (moved i s)

  turns-append : (is js : List ℕ) (s : System T) → turns (is ++ js) s ≡ turns js (turns is s)
  unfolding turns
  turns-append [] js s = refl
  turns-append (i ∷ is) js s = turns-append is js _

  turns-Reach : (is : List ℕ) (s : System T) → Reach result s → Reach result (turns is s)
  unfolding turns
  turns-Reach [] s r = r
  turns-Reach (i ∷ is) s r = turns-Reach is _ (next r (move i))

-- The moves that a thread still needs when the cell is completed.
abbrev left : {T : Type 0} → Pc T → ℕ
left checking = 2
left taking = 4
left (racing valid) = 3
left waiting = 2
left reading = 1
left _ = 0

-- The moves that the owner still needs to complete the cell.
abbrev owner_left : {T : Type 0} → Pc T → ℕ
owner_left (running valid) = 4
owner_left (holding v) = 3
owner_left stored = 2
owner_left (dropping v) = 1
owner_left _ = 0

module _ {T : Type 0} {result : T} where
  completed_move :
      (s : System T) (i j : ℕ)
      → Inv result s.mem s.pc
      → s.mem.word ≡ 2
      → ((moved result j s).mem.word ≡ 2)
        × (left ((moved result j s).pc i) ≤ left (s.pc i) - (if j == i then 1 else 0))
  unfolding step
  completed_move s i j inv full =
      (ground (arith, inv.fits j, inv.owner_word j), ground (arith, inv.fits j, inv.owner_word j))

  free_if_nothing_left :
      (s : System T) (i : ℕ)
      → Inv result s.mem s.pc
      → s.mem.word ≡ 2
      → left (s.pc i) ≡ 0
      → is_free (s.pc i) ≡ true
  free_if_nothing_left s i inv full h = ground (arith, inv.fits i, inv.owner_word i)

  completed_turns :
      (is : List ℕ) (s : System T) (i : ℕ)
      → Reach result s
      → s.mem.word ≡ 2
      → left (s.pc i) ≤ count i is
      → is_free ((turns result is s).pc i) ≡ true
  unfolding turns
  completed_turns [] s i r full h = free_if_nothing_left s i (Reach-Inv r) full (omega arith)
  completed_turns (j ∷ is) s i r full h =
      let (still, less) = completed_move s i j (Reach-Inv r) full in
      completed_turns is (moved result j s) i (next r (move j)) still (omega arith)

  full_turns :
      (is : List ℕ) (s : System T)
      → Reach result s
      → s.mem.word ≡ 2
      → (turns result is s).mem.word ≡ 2
  unfolding turns
  full_turns [] s r full = full
  full_turns (j ∷ is) s r full =
      full_turns is (moved result j s) (next r (move j)) (completed_move s j j (Reach-Inv r) full).0

  owner_move :
      (s : System T) (i j : ℕ)
      → Inv result s.mem s.pc
      → is_owner (s.pc j) ≡ true
      → ((moved result i s).mem.word ≡ 2)
        ⊎ ((is_owner ((moved result i s).pc j) ≡ true)
            × (owner_left ((moved result i s).pc j)
                ≤ owner_left (s.pc j) - (if i == j then 1 else 0)))
  unfolding step
  owner_move s i j inv owner =
      ground (arith, inv.fits i, inv.owner_word i, inv.owner_word j, inv.owner_unique i j)

  owner_turns :
      (is : List ℕ) (s : System T) (j : ℕ)
      → Reach result s
      → is_owner (s.pc j) ≡ true
      → owner_left (s.pc j) ≤ count j is
      → (turns result is s).mem.word ≡ 2
  unfolding turns
  owner_turns [] s j r owner h = absurd (ground arith)
  owner_turns (i ∷ is) s j r owner h = elim (owner_move s i j (Reach-Inv r) owner) [
    | inl full ↦ full_turns is (moved result i s) (next r (move i)) full
    | inr (still, less) ↦ owner_turns is (moved result i s) j (next r (move i)) still (omega arith)
  ]

-- In any schedule that gives four moves to the thread that runs the closure and then four to another
-- thread, with any moves of any threads between them, that other thread's `force` returns.
pub fair_force_returns :
    {T : Type 0} {result : T} {s : System T} (i j : ℕ) (is js : List ℕ)
    → Reach result s
    → is_owner (s.pc j) ≡ true
    → 4 ≤ count j is
    → 4 ≤ count i js
    → is_free ((turns result (is ++ js) s).pc i) ≡ true
fair_force_returns {result} {s} i j is js r owner h g = rw (turns-append result is js s) (
    completed_turns js (turns result is s) i (turns-Reach result is s r) full
      (omega (arith, at_most ((turns result is s).pc i))))
  where
    full : (turns result is s).mem.word ≡ 2
    full = owner_turns is s j r owner (ground (arith, h))

    at_most : {T : Type 0} (p : Pc T) → left p ≤ 4
    at_most p = ground arith
