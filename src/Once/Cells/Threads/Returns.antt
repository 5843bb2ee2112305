-- ===== src/Once/Cells/Threads/Returns.antt =====
-- Threads that share a `LazyCell` of lazy.rs: what their operations end with, and after how many moves.
use ksync.Base.{
  Bool, false, ◌&&◌, not, ℕ, ◌+◌, ◌-◌, ◌≤◌, ◌≡◌, ◌≢◌, ◌==◌, refl, true, none, some, List, [], ◌∷◌,
  count, if◌then◌else◌, arith,
}
use ksync.Once.Lock.{update}
use ksync.Once.Cells.Threads.{
  Place, idle, checking, taking, poisoning, calling, writing, reading, looking, forced, got, step,
  is_init, System, Allowed, move, Reach, next,
}
use ksync.Once.Cells.Threads.Careful.{Inv, Reach-Inv, is_uninit}

-- The moves that a thread still needs.
abbrev needs : {T : Type 0} → Place T → ℕ
needs checking = 6
needs taking = 5
needs (poisoning b) = 4
needs calling = 3
needs (writing v) = 2
needs reading = 1
needs looking = 1
needs _ = 0

-- A `get` that returned nothing.
abbrev pub is_miss : {T : Type 0} → Place T → Bool
is_miss (got none) = true
is_miss _ = false

module _ {T : Type 0} (result : T) where
  -- One move of thread `j`, and several moves in the order given.
  abbrev pub moved : ℕ → System T → System T
  moved j s = record {
    cell = (step result s.cell (s.place j)).0;
    place = update s.place j (step result s.cell (s.place j)).1;
  }

  unfoldable pub moves : List ℕ → System T → System T
  moves [] s = s
  moves (i ∷ is) s = moves is (moved i s)

  moves-Reach :
      (is : List ℕ) (s : System T) → Reach Allowed result s → Reach Allowed result (moves is s)
  unfolding moves
  moves-Reach [] s r = r
  moves-Reach (i ∷ is) s r = moves-Reach is _ (next r (move i))

  moved-needs :
      (i j : ℕ) (s : System T)
      → Inv result s.cell s.place
      → needs ((moved j s).place i) ≤ needs (s.place i) - (if j == i then 1 else 0)
  unfolding step
  moved-needs i j s inv = ground (arith, inv.fits j)

  moves-needs :
      (is : List ℕ) (i : ℕ) (s : System T)
      → Reach Allowed result s
      → needs ((moves is s).place i) ≤ needs (s.place i) - count i is
  unfolding moves
  moves-needs [] i s r = omega arith
  moves-needs (j ∷ js) i s r =
      omega (arith, moved-needs i j s (Reach-Inv r), moves-needs js i (moved j s) (next r (move j)))

  -- What an operation returned.
  abbrev pub Returned : Place T → Type 0
  Returned (forced v) = v ≡ result
  Returned (got (some v)) = v ≡ result
  Returned (got none) = Unit
  Returned idle = Unit
  Returned _ = ⊥

  ended-Returned :
      (p : Place T) (s : System T) (i : ℕ)
      → s.place i ≡ p
      → Inv result s.cell s.place
      → needs p ≡ 0
      → Returned p
  ended-Returned p s i at inv over = ground (arith, inv.fits i)

  -- A cell that is initialised stays so, and no `get` then returns nothing.
  moved-hit :
      (i j : ℕ) (s : System T)
      → Inv result s.cell s.place
      → is_init s.cell.state ≡ true
      → is_miss (s.place i) ≡ false
      → (is_init (moved j s).cell.state ≡ true) × (is_miss ((moved j s).place i) ≡ false)
  unfolding step
  moved-hit i j s inv ready hit = (ground (arith, inv.fits j), ground (arith, inv.fits j))

  moves-hit :
      (is : List ℕ) (i : ℕ) (s : System T)
      → Reach Allowed result s
      → is_init s.cell.state ≡ true
      → is_miss (s.place i) ≡ false
      → is_miss ((moves is s).place i) ≡ false
  unfolding moves
  moves-hit [] i s r ready hit = hit
  moves-hit (j ∷ js) i s r ready hit =
      let (ready', hit') = moved-hit i j s (Reach-Inv r) ready hit in
      moves-hit js i (moved j s) (next r (move j)) ready' hit'

  needs-le : (p : Place T) → needs p ≤ 6
  needs-le p = ground arith

  -- Among threads that keep to the rule of the documentation, in every reachable state and after any
  -- moves of the threads from there, six of them by a thread `i`: thread `i` is in no operation, it has
  -- neither panicked nor met `unreachable!`, its `force` has returned the closure's result and its
  -- `get` that or nothing, and nothing only if it had already or the value was not yet there in the
  -- state at first; and the closure has run at most once.
  pub careful-Returned :
      (i : ℕ) (is : List ℕ) (s : System T)
      → Reach Allowed result s
      → 6 ≤ count i is
      → Returned ((moves is s).place i)
        × ((is_init s.cell.state && not (is_miss (s.place i)) && is_miss ((moves is s).place i))
            ≡ false)
        × ((moves is s).cell.runs ≤ 1)
  careful-Returned i is s r enough =
      let inv = Reach-Inv (moves-Reach is s r) in
      (
        ended-Returned ((moves is s).place i) (moves is s) i refl inv
            (omega (arith, moves-needs is i s r, needs-le (s.place i))),
        ground (arith, moves-hit is i s r),
        inv.few,
      )

  -- Without the rule: two threads that have both found the closure, before either reads it, can both
  -- call it.
  pub careless_twice :
      (i j : ℕ) (s : System T)
      → Reach (λ s. Unit {0}) result s
      → i ≢ j
      → s.place i ≡ taking
      → s.place j ≡ taking
      → is_uninit s.cell.state ≡ true
      → (t : System T) × Reach (λ s. Unit {0}) result t × (t.cell.runs ≡ s.cell.runs + 2)
  unfolding step
  careless_twice i j s r ne pi pj fresh = (
    moved j (moved i (moved j (moved i (moved j (moved i s))))),
    next (next (next (next (next (next r (move i)) (move j)) (move i)) (move j)) (move i)) (move j),
    ground arith,
  )
