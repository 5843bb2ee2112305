-- ===== src/Once/Invariant.antt =====
-- What every interleaving of threads keeps true of a `OnceLock` of lazy.rs.
use ksync.Base.{
  ℕ, ◌≤◌, ◌≡◌, ◌≢◌, Bool, true, false, none, some, is_some, arith, ◌==◌, Bool-cases, inl, inr,
}
use ksync.Once.Lock.{
  move, begin, next, Step, start, checking, Reach, new, is_free, System, OnceLock, Op, Pc, running,
  holding, stored, dropping, reading, finished, broken, got, set_ok, set_err, update, here, waiting,
  step,
}

-- Between a won exchange and the drop of the guard.
abbrev pub is_owner : {T : Type 0} → Pc T → Bool
is_owner (running o v) = true
is_owner (holding o v) = true
is_owner (stored o) = true
is_owner (dropping o v) = true
is_owner _ = false

-- What a thread's place says about the cell.
abbrev pub Fits : {T : Type 0} → OnceLock T → Pc T → Type 0
Fits m (running o v) = (m.runs ≡ 0) × (m.value ≡ none)
Fits m (holding o v) = (m.runs ≡ 1) × (m.value ≡ none)
Fits m (stored o) = (m.runs ≡ 1) × (is_some m.value ≡ true)
Fits m (dropping o v) = (m.runs ≡ 1) × (m.value ≡ some v)
Fits m (waiting o) = m.word ≢ 0
Fits m (reading o) = m.word ≡ 2
Fits m (finished (got (some v))) = (m.word ≡ 2) × (m.value ≡ some v)
Fits m (finished set_ok) = m.word ≡ 2
Fits m (finished (set_err w)) = m.word ≡ 2
Fits m broken = ⊥
Fits m _ = Unit

-- What the word says about the cell.
pub record Cell {T : Type 0} (m : OnceLock T) : Type 0 where
  pub small : m.word ≤ 2
  pub few : m.runs ≤ 1
  pub fresh : m.word ≡ 0 → (m.runs ≡ 0) × (m.value ≡ none)
  pub full : m.word ≡ 2 → (m.runs ≡ 1) × (is_some m.value ≡ true)

pub record Inv {T : Type 0} (m : OnceLock T) (pc : ℕ → Pc T) : Type 0 where
  pub cell : Cell m
  pub owner_word : (i : ℕ) → is_owner (pc i) ≡ true → m.word ≡ 1
  pub owner_unique : (i j : ℕ) → is_owner (pc i) ≡ true → is_owner (pc j) ≡ true → i ≡ j
  pub owned : m.word ≡ 1 → (i : ℕ) × (is_owner (pc i) ≡ true)
  pub fits : (i : ℕ) → Fits m (pc i)

module _ {T : Type 0} (m : OnceLock T) (pc : ℕ → Pc T) (inv : Inv m pc) (i : ℕ) where
  open inv use {cell, owner_word, owner_unique, owned, fits}

  step-Cell : Cell (step m (pc i)).0
  unfolding step
  step-Cell = ground (arith, fits i, owner_word i)

  step-owner_word :
      (j : ℕ) → is_owner (update pc i (step m (pc i)).1 j) ≡ true → (step m (pc i)).0.word ≡ 1
  unfolding step
  step-owner_word j h = ground (arith, fits i, owner_word i, owner_word j, owner_unique i j)

  step-owner_unique :
      (j n : ℕ)
      → is_owner (update pc i (step m (pc i)).1 j) ≡ true
      → is_owner (update pc i (step m (pc i)).1 n) ≡ true
      → j ≡ n
  unfolding step
  step-owner_unique j n h g =
      ground (arith, owner_word i, owner_word j, owner_word n, owner_unique j n)

  step-Fits : (j : ℕ) → Fits (step m (pc i)).0 (update pc i (step m (pc i)).1 j)
  unfolding step
  step-Fits j = ground (arith, fits i, fits j, owner_word i, owner_word j, owner_unique i j)

  step-owned :
      (step m (pc i)).0.word ≡ 1 → (j : ℕ) × (is_owner (update pc i (step m (pc i)).1 j) ≡ true)
  unfolding step
  step-owned h = elim (Bool-cases (m.word == 0)) [
    | inl first ↦ (i, ground (arith, fits i, owner_word i))
    | inr later ↦
        let (j, owner) = owned (ground (arith, fits i, owner_word i)) in
        (j, ground (arith, fits i, owner_word i, owner_word j, owner_unique i j))
  ]

-- A move of any thread keeps the invariant.
move-Inv :
    {T : Type 0} (m : OnceLock T) (pc : ℕ → Pc T) (i : ℕ)
    → Inv m pc
    → Inv (step m (pc i)).0 (update pc i (step m (pc i)).1)
move-Inv m pc i inv = record {
  cell = step-Cell m pc inv i;
  owner_word = step-owner_word m pc inv i;
  owner_unique = step-owner_unique m pc inv i;
  owned = step-owned m pc inv i;
  fits = step-Fits m pc inv i;
}

begin-Inv :
    {T : Type 0} (m : OnceLock T) (pc : ℕ → Pc T) (i : ℕ) (o : Op T)
    → is_free (pc i) ≡ true
    → Inv m pc
    → Inv m (update pc i (checking o))
begin-Inv m pc i o free inv = record {
  cell = inv.cell;
  owner_word = λ j h. ground (arith, inv.owner_word j);
  owner_unique = λ j n h g. ground (arith, inv.owner_unique j n);
  owned = λ h. let (j, owner) = inv.owned h in (j, ground arith);
  fits = λ j. ground (arith, inv.fits j);
}

-- Every step keeps the invariant, so it holds in every reachable state.
pub Step-Inv : {T : Type 0} {s t : System T} → Step s t → Inv s.mem s.pc → Inv t.mem t.pc
Step-Inv {s} (begin i o free) inv = begin-Inv s.mem s.pc i o free inv
Step-Inv {s} (move i) inv = move-Inv s.mem s.pc i inv

start-Inv : {T : Type 0} → Inv (start {T = T}).mem (start {T = T}).pc
unfolding new
start-Inv = record {
  cell = ground arith;
  owner_word = λ i h. cc;
  owner_unique = λ i j h g. cc;
  owned = λ h. absurd (omega arith);
  fits = λ i. tt;
}

pub Reach-Inv : {T : Type 0} {s : System T} → Reach s → Inv s.mem s.pc
Reach-Inv here = start-Inv
Reach-Inv (next r st) = Step-Inv st (Reach-Inv r)
