-- ===== src/Once/Ownership.antt =====
-- Who destroys the value of a `OnceLock` of lazy.rs: `take`, `OnceLock::drop` and its `Drop`.
use ksync.Base.{inr, inl, ◌⊎◌, ◌≤◌, ℕ, ◌≡◌, true, arith}
use ksync.Once.Lock.{System, Reach, is_free, is_initialized, get_mut, take, drops}
use ksync.Once.Invariant.{Inv, Reach-Inv}

-- When no thread is in an operation, after any interleaving: the destructor of the cell runs as often as
-- an initialiser ran, `get_mut` reaches the value that is stored, if any, and `take` returns that value
-- and leaves a cell whose destructor does not run.
pub rest_accounts :
    {T : Type 0} {s : System T}
    → Reach s
    → ((i : ℕ) → is_free (s.pc i) ≡ true)
    → (drops s.mem ≡ s.mem.runs)
      × (get_mut s.mem ≡ s.mem.value)
      × ((take s.mem).1 ≡ s.mem.value)
      × (drops (take s.mem).0 ≡ 0)
unfolding drops get_mut take is_initialized
rest_accounts {s} r rest = elim (cases s.mem.word inv.cell.small) [
  | inl fresh ↦
      let (never, empty) = inv.cell.fresh fresh in
      (ground (arith, never), ground (arith, empty), ground (arith, empty), ground arith)
  | inr (inl busy) ↦ let (j, owner) = inv.owned busy in absurd (ground (arith, rest j))
  | inr (inr full) ↦
      let (once, there) = inv.cell.full full in
      (ground (arith, once), ground arith, ground arith, ground arith)
]
  where
    inv : Inv s.mem s.pc
    inv = Reach-Inv r

    cases : (w : ℕ) → w ≤ 2 → (w ≡ 0) ⊎ ((w ≡ 1) ⊎ (w ≡ 2))
    cases w h = ground (arith, h)
