-- ===== src/Mutex/Threads/Counter.antt =====
-- The shared counter of src/test.rs (`test_guard_mutex`, `test_fast_mutex`, `test_spinlock`,
-- `test_resouce_lock`): threads that each add one to a `Locked<u32>` of mutex.rs a number of times.
pub mod Sums
pub mod Total
pub mod Progress
use ksync.Base.{
  ℕ, zero, suc, ◌+◌, ◌%◌, ◌^◌, ◌<◌, ◌≡◌, ltb, Bool, true, false, List, [], ◌∷◌, arith,
  if◌then◌else◌,
}
use ksync.Once.Lock.{update}
use ksync.Mutex.Threads.{
  change, Place, testing, locking, reading, writing, releasing, shared_reading, shared_releasing,
  peeking, misused, passed, first, step, is_free, System, Exclusive, Step, begin, pass, refuse,
  acquire, move, release, start, Reach, here, next,
}

-- `*guard += 1`, on a `u32`.
unfoldable pub increment : ℕ → ℕ
increment n = (n + 1) % 2 ^ 32

-- `left` is the number of rounds that the loop of a thread has not begun, and `failed`, which is no
-- part of the program, the number of its rounds in which `lock` returned an error.
pub record Run (L : Type 0) : Type 0 where
  pub system : System ℕ L
  pub left : ℕ → ℕ
  pub failed : ℕ → ℕ

module _ {L : Type 0} {Acquire Release : ℕ → L → L → Type 0} where
  abbrev pub begins : {s t : System ℕ L} → Step Acquire Release s t → Bool
  begins (begin i job free) = true
  begins _ = false

  abbrev pub failed_after : {s t : System ℕ L} → Step Acquire Release s t → (ℕ → ℕ) → ℕ → ℕ
  failed_after (refuse i job at) failed = update failed i (failed i + 1)
  failed_after _ failed = failed

module _ {L : Type 0} (Acquire Release : ℕ → L → L → Type 0) where
  pub data Turn (r : Run L) : Run L → Type 0 where
    round :
        (i n : ℕ)
        → is_free (r.system.place i) ≡ true
        → r.left i ≡ suc n
        → Turn r (record r {
          system = record r.system { place = update r.system.place i (first (change increment)) };
          left = update r.left i n;
        })
    work :
        {t : System ℕ L} (st : Step Acquire Release r.system t)
        → begins st ≡ false
        → Turn r (record r { system = t; failed = failed_after st r.failed })

  abbrev pub started : (fresh : L) → (c threads rounds : ℕ) → Run L
  started fresh c threads rounds = record {
    system = start Acquire Release fresh c;
    left = λ i. if ltb i threads then rounds else 0;
    failed = λ i. 0;
  }

  pub data Runs (fresh : L) (c threads rounds : ℕ) : Run L → Type 0 where
    spawned : Runs fresh c threads rounds (started fresh c threads rounds)
    then_turn :
        {r r' : Run L} → Runs fresh c threads rounds r → Turn r r' → Runs fresh c threads rounds r'

-- Every thread has left its loop.
abbrev pub Finished : {L : Type 0} → ℕ → Run L → Type 0
Finished threads r = (i : ℕ) → i < threads → (r.left i ≡ 0) × (is_free (r.system.place i) ≡ true)

-- A round that is begun and not finished.
abbrev pub busy : Place ℕ → ℕ
busy p = if is_free p then 0 else 1

-- What a thread of the counter may be at.
abbrev pub Adding : Place ℕ → Type 0
Adding (testing (change f)) = f ≡ increment
Adding (testing _) = ⊥
Adding (locking (change f)) = f ≡ increment
Adding (locking _) = ⊥
Adding (reading (change f)) = f ≡ increment
Adding (reading _) = ⊥
Adding (writing f v) = f ≡ increment
Adding (releasing a w) = w ≡ true
Adding shared_reading = ⊥
Adding (shared_releasing v) = ⊥
Adding peeking = ⊥
Adding misused = ⊥
Adding _ = Unit

-- All changes are increments by the first `n` threads.
abbrev pub Adds : ℕ → List (ℕ × (ℕ → ℕ)) → Type 0
Adds n [] = Unit
Adds n ((j, f) ∷ cs) = (j < n) × (f ≡ increment) × Adds n cs

module _ {L : Type 0} {held : L → ℕ → Bool} {Acquire Release : ℕ → L → L → Type 0} {fresh : L}
    (laws : Exclusive held Acquire Release fresh) (c threads rounds : ℕ) where
  pub record Books (r : Run L) : Type 0 where
    pub reached : Reach Acquire Release fresh c r.system
    pub adding : (i : ℕ) → Adding (r.system.place i)
    pub adds : Adds threads r.system.changes
    pub balance :
        (i : ℕ)
        → r.left i + busy (r.system.place i) + r.system.updates i + r.failed i
          ≡ (if ltb i threads then rounds else 0)

  work-Books :
      {r : Run L} {t : System ℕ L} (st : Step Acquire Release r.system t)
      → begins st ≡ false
      → Books r
      → Books (record r { system = t; failed = failed_after st r.failed })
  unfolding passed step
  work-Books (begin i job free) works books = absurd (ground arith)
  work-Books (pass i job at) works books = record {
    reached = next books.reached (pass i job at);
    adding = λ j. ground (arith, books.adding i, books.adding j);
    adds = books.adds;
    balance = λ j. ground (arith, books.adding i, books.balance j);
  }
  work-Books (refuse i job at) works books = record {
    reached = next books.reached (refuse i job at);
    adding = λ j. ground (arith, books.adding j);
    adds = books.adds;
    balance = λ j. ground (arith, books.balance j);
  }
  work-Books (acquire i job l at got) works books = record {
    reached = next books.reached (acquire i job l at got);
    adding = λ j. ground (arith, books.adding i, books.adding j);
    adds = books.adds;
    balance = λ j. ground (arith, books.balance j);
  }
  work-Books (move i) works books = record {
    reached = next books.reached (move i);
    adding = λ j. ground (arith, books.adding i, books.adding j);
    adds = ground (arith, books.adds, books.adding i, books.balance i);
    balance = λ j. ground (arith, books.adding i, books.balance j);
  }
  work-Books (release i a w l at gone) works books = record {
    reached = next books.reached (release i a w l at gone);
    adding = λ j. ground (arith, books.adding j);
    adds = books.adds;
    balance = λ j. ground (arith, books.adding i, books.balance j);
  }

  pub Runs-Books : {r : Run L} → Runs Acquire Release fresh c threads rounds r → Books r
  unfolding first
  Runs-Books spawned = record {
    reached = here;
    adding = λ i. tt;
    adds = tt;
    balance = λ i. omega arith;
  }
  Runs-Books (then_turn runs (round i n free more)) =
      let books = Runs-Books runs in
      record {
        reached = next books.reached (begin i (change increment) free);
        adding = λ j. ground (arith, books.adding j);
        adds = books.adds;
        balance = λ j. ground (arith, books.balance j);
      }
  Runs-Books (then_turn runs (work st works)) = work-Books st works (Runs-Books runs)
