-- ===== src/Mutex/Threads/Invariant.antt =====
-- What every interleaving of threads keeps true of a `Locked` of mutex.rs.
use ksync.Base.{false, ◌≢◌, ℕ, ◌+◌, ◌≡◌, refl, Bool, true, arith}
use ksync.Mutex.Threads.{
  Place, writing, releasing, passed, first, step, replay, made_by, inside, System, Exclusive, Step,
  begin, pass, refuse, acquire, move, release, Reach, here, next,
}

-- An update that is written and not yet finished.
abbrev pub pending : {T : Type 0} → Place T → ℕ
pending (releasing a true) = 1
pending _ = 0

-- A thread that is about to write has read the present content.
abbrev pub Fits : {T : Type 0} → T → Place T → Type 0
Fits c (writing f v) = v ≡ c
Fits c _ = Unit

module _ {T L : Type 0} {held : L → ℕ → Bool} {Acquire Release : ℕ → L → L → Type 0} {fresh : L}
    (laws : Exclusive held Acquire Release fresh) (c : T) where
  pub record Inv (s : System T L) : Type 0 where
    pub holds : (i : ℕ) → inside (s.place i) ≡ held s.lock i
    pub sole : (i j : ℕ) → held s.lock i ≡ true → held s.lock j ≡ true → i ≡ j
    pub serial : s.content ≡ replay c s.changes
    pub fits : (i : ℕ) → Fits s.content (s.place i)
    pub counted : (i : ℕ) → made_by i s.changes ≡ s.updates i + pending (s.place i)

  Step-Inv : {s t : System T L} → Step Acquire Release s t → Inv s → Inv t
  unfolding first passed step
  Step-Inv {s} (begin i job free) inv = record {
    holds = λ j. ground (arith, inv.holds j);
    sole = inv.sole;
    serial = inv.serial;
    fits = λ j. ground (arith, inv.fits j);
    counted = λ j. ground (arith, inv.counted j);
  }
  Step-Inv {s} (pass i job at) inv = record {
    holds = λ j. ground (arith, inv.holds j);
    sole = inv.sole;
    serial = inv.serial;
    fits = λ j. ground (arith, inv.fits j);
    counted = λ j. ground (arith, inv.counted j);
  }
  Step-Inv {s} (refuse i job at) inv = record {
    holds = λ j. ground (arith, inv.holds j);
    sole = inv.sole;
    serial = inv.serial;
    fits = λ j. ground (arith, inv.fits j);
    counted = λ j. ground (arith, inv.counted j);
  }
  Step-Inv {s} (acquire i job l at got) inv = record {
    holds = λ j. ground (
      arith,
      inv.holds j,
      laws.acquire_waits i j s.lock l got,
      laws.acquire_owns i j s.lock l got,
    );
    sole = λ j n h g.
        ground (arith, laws.acquire_owns i j s.lock l got, laws.acquire_owns i n s.lock l got);
    serial = inv.serial;
    fits = λ j. ground (arith, inv.fits j);
    counted = λ j. ground (arith, inv.counted j);
  }
  Step-Inv {s} (move i) inv = record {
    holds = λ j. ground (arith, inv.holds j);
    sole = inv.sole;
    serial = ground (arith, inv.serial, inv.fits i);
    fits = λ j. ground (arith, inv.fits j, inv.holds i, inv.holds j, inv.sole i j);
    counted = λ j. ground (arith, inv.counted j);
  }
  Step-Inv {s} (release i a w l at gone) inv = record {
    holds = λ j. ground (arith, inv.holds j, laws.release_frees i j s.lock l gone);
    sole = λ j n h g. ground (
      arith,
      inv.sole j n,
      laws.release_frees i j s.lock l gone,
      laws.release_frees i n s.lock l gone,
    );
    serial = inv.serial;
    fits = λ j. ground (arith, inv.fits j);
    counted = λ j. ground (arith, inv.counted j);
  }

  pub Reach-Inv : {s : System T L} → Reach Acquire Release fresh c s → Inv s
  Reach-Inv here = record {
    holds = λ i. ground (arith, laws.fresh_free i);
    sole = λ i j h g. ground (arith, laws.fresh_free i);
    serial = refl;
    fits = λ i. tt;
    counted = λ i. refl;
  }
  Reach-Inv (next r st) = Step-Inv st (Reach-Inv r)

-- Over any lock that is exclusive, while one thread is between the acquisition and the release of the
-- `Locked`, no other thread is.
pub guards_exclude :
    {T L : Type 0} {held : L → ℕ → Bool} {Acquire Release : ℕ → L → L → Type 0} {fresh : L} {c : T}
    {s : System T L} (i j : ℕ)
    → Exclusive held Acquire Release fresh
    → Reach Acquire Release fresh c s
    → i ≢ j
    → inside (s.place i) ≡ true
    → inside (s.place j) ≡ false
guards_exclude {c} i j laws r ne h =
    let inv = Reach-Inv laws c r in ground (arith, inv.holds i, inv.holds j, inv.sole i j)

-- Over any lock that is exclusive, the content is what the changes made through guards give when they
-- are applied one after the other, and each thread's changes are exactly its finished updates and the
-- one that it has written and not yet released: no update is lost and none is applied twice.
pub updates_serial :
    {T L : Type 0} {held : L → ℕ → Bool} {Acquire Release : ℕ → L → L → Type 0} {fresh : L} {c : T}
    {s : System T L} (i : ℕ)
    → Exclusive held Acquire Release fresh
    → Reach Acquire Release fresh c s
    → (s.content ≡ replay c s.changes) × (made_by i s.changes ≡ s.updates i + pending (s.place i))
updates_serial {c} i laws r = let inv = Reach-Inv laws c r in (inv.serial, inv.counted i)
