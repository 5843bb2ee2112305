-- ===== src/Once/LazyRefine.antt =====
-- `LazyLock` of lazy.rs as a cell that is written at most once, by `force`.
use ksync.Base.{◌≡◌, ◌⊎◌, Option, none, some, arith, ℕ}
use ksync.Once.Lazy.{Pc, finished, System, Reach, step, get, is_initialized}
use ksync.Once.LazyRace.{Inv, Reach-Inv}

-- A `force` that returns from `before` to `after` while `get` answers `c`.
abbrev pub Forced : {T : Type 0} → Option T → (before after : Pc T) → Type 0
Forced c (finished w) after = Unit
Forced c before (finished v) = c ≡ some v
Forced c before after = Unit

-- Every move of a thread in `force` leaves what `get` answers alone or turns it from `None` into the
-- closure's result, and a `force` that returns in that move returns what `get` then answers.
pub force_move_refines :
    {T : Type 0} {result : T} {s : System T} (i : ℕ)
    → Reach result s
    → ((get (step result s.mem (s.pc i)).0 ≡ get s.mem)
        ⊎ ((get s.mem ≡ none) × (get (step result s.mem (s.pc i)).0 ≡ some result)))
      × Forced (get (step result s.mem (s.pc i)).0) (s.pc i) (step result s.mem (s.pc i)).1
unfolding get step is_initialized
force_move_refines {result} {s} i r =
    (ground (arith, inv.fits i, inv.owner_word i), ground (arith, inv.fits i, inv.owner_word i))
  where
    inv : Inv result s.mem s.pc
    inv = Reach-Inv r
