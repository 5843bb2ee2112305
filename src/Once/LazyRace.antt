-- ===== src/Once/LazyRace.antt =====
-- `LazyLock` of lazy.rs under any interleaving of any number of threads.
use ksync.Base.{
  if◌then◌else◌, none, some, ◌==◌, refl, ◌+◌, ℕ, ◌≤◌, ◌≡◌, ◌≢◌, Bool, true, false, arith,
}
use ksync.Once.Lazy.{
  drop_cell, drop_static, the_value, the_closure, nothing, here, next, begin, move, Reach, start,
  Step, System, new, LazyLock, closure, value, Pc, taking, racing, running, holding, stored,
  dropping, waiting, reading, finished, broken, panicked, step,
}
use ksync.Once.Lock.{update}

abbrev pub is_owner : {T : Type 0} → Pc T → Bool
is_owner (running b) = true
is_owner (holding v) = true
is_owner stored = true
is_owner (dropping v) = true
is_owner _ = false

abbrev pub Fits : {T : Type 0} → T → LazyLock T → Pc T → Type 0
Fits result m (racing b) = m.word ≡ 0 → b ≡ true
Fits result m (running b) = (m.runs ≡ 0) × (m.slot ≡ closure) × (b ≡ true)
Fits result m (holding v) = (m.runs ≡ 1) × (m.slot ≡ closure) × (v ≡ result)
Fits result m stored = (m.runs ≡ 1) × (m.slot ≡ value result)
Fits result m (dropping v) = (m.runs ≡ 1) × (m.slot ≡ value v) × (v ≡ result)
Fits result m waiting = m.word ≢ 0
Fits result m reading = m.word ≡ 2
Fits result m (finished v) = (m.word ≡ 2) × (v ≡ result)
Fits result m panicked = ⊥
Fits result m broken = ⊥
Fits result m _ = Unit

pub record Inv {T : Type 0} (result : T) (m : LazyLock T) (pc : ℕ → Pc T) : Type 0 where
  pub small : m.word ≤ 2
  pub few : m.runs ≤ 1
  pub fresh : m.word ≡ 0 → (m.runs ≡ 0) × (m.slot ≡ closure)
  pub full : m.word ≡ 2 → (m.runs ≡ 1) × (m.slot ≡ value result)
  pub owner_word : (i : ℕ) → is_owner (pc i) ≡ true → m.word ≡ 1
  pub owner_unique : (i j : ℕ) → is_owner (pc i) ≡ true → is_owner (pc j) ≡ true → i ≡ j
  pub fits : (i : ℕ) → Fits result m (pc i)

move-Inv :
    {T : Type 0} (result : T) (m : LazyLock T) (pc : ℕ → Pc T) (i : ℕ)
    → Inv result m pc
    → Inv result (step result m (pc i)).0 (update pc i (step result m (pc i)).1)
unfolding step
move-Inv result m pc i inv = record {
  small = ground (arith, inv.fits i, inv.owner_word i);
  few = ground (arith, inv.fits i, inv.owner_word i);
  fresh = ground (arith, inv.fits i, inv.owner_word i);
  full = ground (arith, inv.fits i, inv.owner_word i);
  owner_word =
      λ j h. ground (arith, inv.fits i, inv.owner_word i, inv.owner_word j, inv.owner_unique i j);
  owner_unique = λ j n h g.
      ground (arith, inv.owner_word i, inv.owner_word j, inv.owner_word n, inv.owner_unique j n);
  fits = λ j.
      ground
        (arith, inv.fits i, inv.fits j, inv.owner_word i, inv.owner_word j, inv.owner_unique i j);
}

Step-Inv :
    {T : Type 0} {result : T} {s t : System T}
    → Step result s t
    → Inv result s.mem s.pc
    → Inv result t.mem t.pc
Step-Inv {result} {s} (move i) inv = move-Inv result s.mem s.pc i inv
Step-Inv {result} {s} (begin i free) inv = record {
  small = inv.small;
  few = inv.few;
  fresh = inv.fresh;
  full = inv.full;
  owner_word = λ j h. ground (arith, inv.owner_word j);
  owner_unique = λ j n h g. ground (arith, inv.owner_unique j n);
  fits = λ j. ground (arith, inv.fits j);
}

start-Inv : {T : Type 0} (result : T) → Inv result (start {T = T}).mem (start {T = T}).pc
unfolding new
start-Inv result = record {
  small = omega arith;
  few = omega arith;
  fresh = λ h. (refl, refl);
  full = λ h. absurd (omega arith);
  owner_word = λ i h. cc;
  owner_unique = λ i j h g. cc;
  fits = λ i. tt;
}

pub Reach-Inv : {T : Type 0} {result : T} {s : System T} → Reach result s → Inv result s.mem s.pc
Reach-Inv {result} here = start-Inv result
Reach-Inv (next r st) = Step-Inv st (Reach-Inv r)

-- A thread that has returned has the closure's result, none has panicked, none calls or returns what
-- the union did not hold, and one whose copy of the closure is a misread value loses the exchange.
abbrev pub Outcome : {T : Type 0} → T → LazyLock T → Pc T → Type 0
Outcome result m (finished v) = v ≡ result
Outcome result m (racing false) = m.word ≢ 0
Outcome result m (running b) = b ≡ true
Outcome result m broken = ⊥
Outcome result m panicked = ⊥
Outcome result m _ = Unit

-- In every reachable state the closure has run at most once, every thread that has returned has its
-- result, and none has panicked. A thread can have read the value of the union as the closure; such a
-- thread loses the exchange, so what is called is the closure, and what is returned was read as a value
-- from a union that held one.
pub force_once :
    {T : Type 0} {result : T} {s : System T} (i : ℕ)
    → Reach result s
    → (s.mem.runs ≤ 1) × Outcome result s.mem (s.pc i)
force_once {result} {s} i r = (inv.few, ground (arith, inv.fits i))
  where
    inv : Inv result s.mem s.pc
    inv = Reach-Inv r

move_one : {T : Type 0} → T → ℕ → System T → System T
move_one result i s = record {
  mem = (step result s.mem (s.pc i)).0;
  pc = update s.pc i (step result s.mem (s.pc i)).1;
}

-- From a reachable state of a fresh cell with two threads before the read of the closure, a state is
-- reachable in which one has stored the value and the other has read it out of the union as a closure,
-- and one move later has destroyed it as one.
pub late_take-misreads :
    {T : Type 0} {result : T} {s : System T} (i j : ℕ)
    → Reach result s
    → i ≢ j
    → s.pc i ≡ taking
    → s.pc j ≡ taking
    → s.mem.word ≡ 0
    → (t : System T) × Reach result t
      × (t.mem.slot ≡ value result)
      × (t.pc j ≡ racing false)
      × ((step result t.mem (t.pc j)).1 ≡ waiting)
      × ((step result t.mem (t.pc j)).0.copies_dropped ≡ s.mem.copies_dropped + 1)
unfolding step move_one
late_take-misreads {result} {s} i j r ne pi pj z = (
  move_one result j
      (move_one result i (move_one result i (move_one result i (move_one result i s)))),
  next (next (next (next (next r (move i)) (move i)) (move i)) (move i)) (move j),
  ground (arith, (Reach-Inv r).fresh),
  ground (arith, (Reach-Inv r).fresh),
  ground (arith, (Reach-Inv r).fresh),
  ground (arith, (Reach-Inv r).fresh),
)

-- From a reachable state of a fresh cell with two threads between the read of the closure and the
-- exchange, a state is reachable in which the closure was called and a copy of it was destroyed
-- besides.
pub double_consume :
    {T : Type 0} {result : T} {s : System T} (i j : ℕ)
    → Reach result s
    → i ≢ j
    → s.pc i ≡ racing true
    → s.pc j ≡ racing true
    → s.mem.word ≡ 0
    → (t : System T) × Reach result t
      × (t.mem.runs ≡ 1)
      × (t.mem.copies_dropped ≡ s.mem.copies_dropped + 1)
unfolding step move_one
double_consume {result} {s} i j r ne pi pj z = (
  move_one result j (move_one result i (move_one result i s)),
  next (next (next r (move i)) (move i)) (move j),
  ground (arith, (Reach-Inv r).fresh),
  ground arith,
)

-- In every reachable state the `Drop` of the cell destroys the value if the cell is completed, the
-- closure if it is fresh, and nothing while a thread runs the closure; where the associated `drop` does
-- not panic it destroys the same.
pub drop-right :
    {T : Type 0} {result : T} {s : System T}
    → Reach result s
    → (drop_cell s.mem ≡ (
        if s.mem.word == 2
        then the_value result
        else if s.mem.word == 0
        then the_closure
        else nothing))
      × (drop_static s.mem ≡ (if s.mem.word == 1 then none else some (drop_cell s.mem)))
unfolding drop_cell drop_static
drop-right {s} r = (
  ground (arith, (Reach-Inv r).small, (Reach-Inv r).fresh, (Reach-Inv r).full),
  ground (arith, (Reach-Inv r).small),
)
