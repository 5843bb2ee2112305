-- ===== src/Mutex/Threads/Counter/Progress.antt =====
-- The threads of the shared counter of src/test.rs can always be run to the end.
use ksync.Base.{
  zero-cases, ℕ, zero, suc, ◌+◌, ◌*◌, ◌<◌, ◌≤◌, ◌≡◌, ◌≢◌, ◌⊎◌, inl, inr, refl, Bool, true, false,
  Bool-cases, arith, ◌∙◌,
}
use ksync.Mutex.Threads.{
  Job, change, Place, testing, locking, reading, writing, releasing, passed, first, step, is_free,
  inside, Exclusive, Live, pass, acquire, move, release,
}
use ksync.Mutex.Threads.Invariant.{Reach-Inv}
use ksync.Mutex.Threads.Counter.{Run, Runs, then_turn, round, work, Finished, Runs-Books}
use ksync.Mutex.Threads.Counter.Sums.{sum_below, sum_below-less}

-- The turns that a thread still needs, if no lock fails.
abbrev weight : Place ℕ → ℕ
weight (testing job) = 5
weight (locking job) = 4
weight (reading job) = 3
weight (writing f v) = 2
weight (releasing a w) = 1
weight _ = 0

abbrev needs : {L : Type 0} → Run L → ℕ → ℕ
needs r i = r.left i * 6 + weight (r.system.place i)

module _ {L : Type 0} {held : L → ℕ → Bool} {Acquire Release : ℕ → L → L → Type 0} {fresh : L}
    (laws : Exclusive held Acquire Release fresh) (live : Live held Acquire Release)
    (c threads rounds : ℕ) where
  -- A turn can be taken after which thread `i` needs less and the others need the same.
  record Advances (r : Run L) (i : ℕ) : Type 0 where
    below : i < threads
    after : Run L
    runs : Runs Acquire Release fresh c threads rounds after
    less : needs after i < needs r i
    same : (j : ℕ) → i ≢ j → needs after j ≡ needs r j

  inside-Advances :
      (r : Run L) (i : ℕ)
      → Runs Acquire Release fresh c threads rounds r
      → (p : Place ℕ) → r.system.place i ≡ p
      → inside p ≡ true
      → Advances r i
  unfolding step
  inside-Advances r i runs (reading job) at h = record {
    below = ground (arith, (Runs-Books laws c threads rounds runs).balance i);
    after = _;
    runs = then_turn runs (work (move i) refl);
    less = ground arith;
    same = λ j ne. ground arith;
  }
  inside-Advances r i runs (writing f v) at h = record {
    below = ground (arith, (Runs-Books laws c threads rounds runs).balance i);
    after = _;
    runs = then_turn runs (work (move i) refl);
    less = ground arith;
    same = λ j ne. ground arith;
  }
  inside-Advances r i runs (releasing a w) at h =
      let books = Runs-Books laws c threads rounds runs in
      let held_here = (Reach-Inv laws c books.reached).holds i in
      let (l, gone) = live.release_now i r.system.lock (ground (arith, held_here)) in
      record {
        below = ground (arith, books.balance i);
        after = _;
        runs = then_turn runs (work (release i a w l at gone) refl);
        less = ground arith;
        same = λ j ne. ground arith;
      }
  inside-Advances r i runs p at h = absurd (ground arith)

  -- Where a thread waits for the lock, it or the holder can take a turn.
  locking-Advances :
      (r : Run L) (i : ℕ) (job : Job ℕ)
      → Runs Acquire Release fresh c threads rounds r
      → i < threads
      → r.system.place i ≡ locking job
      → (j : ℕ) × Advances r j
  locking-Advances r i job runs below at = elim (live.free_or_held r.system.lock) [
    | inl free ↦
        let (l, got) = live.acquire_now i r.system.lock free in
        let advance : Advances r i = record {
          below = below;
          after = _;
          runs = then_turn runs (work (acquire i job l at got) refl);
          less = ground arith;
          same = λ j ne. ground arith;
        } in
        (i, advance)
    | inr (j, taken) ↦
        let inv = Reach-Inv laws c (Runs-Books laws c threads rounds runs).reached in
        (j, inside-Advances r j runs (r.system.place j) refl (inv.holds j ∙ taken))
  ]

  pass-Advances :
      (r : Run L) (i : ℕ) (f : ℕ → ℕ)
      → Runs Acquire Release fresh c threads rounds r
      → i < threads
      → r.system.place i ≡ testing (change f)
      → Advances r i
  unfolding passed
  pass-Advances r i f runs below at = record {
    below = below;
    after = _;
    runs = then_turn runs (work (pass i (change f) at) refl);
    less = ground arith;
    same = λ j ne. ground arith;
  }

  round-Advances :
      (r : Run L) (i n : ℕ)
      → Runs Acquire Release fresh c threads rounds r
      → i < threads
      → is_free (r.system.place i) ≡ true
      → r.left i ≡ suc n
      → Advances r i
  unfolding first
  round-Advances r i n runs below free more = record {
    below = below;
    after = _;
    runs = then_turn runs (round i n free more);
    less = ground arith;
    same = λ j ne. ground arith;
  }

  -- While a round of a thread is begun and not finished, a turn can be taken.
  busy-Advances :
      (r : Run L) (i : ℕ)
      → Runs Acquire Release fresh c threads rounds r
      → i < threads
      → (p : Place ℕ) → r.system.place i ≡ p
      → is_free p ≡ false
      → (j : ℕ) × Advances r j
  busy-Advances r i runs below (testing (change f)) at h = (i, pass-Advances r i f runs below at)
  busy-Advances r i runs below (locking job) at h = locking-Advances r i job runs below at
  busy-Advances r i runs below (reading job) at h =
      (i, inside-Advances r i runs (reading job) at refl)
  busy-Advances r i runs below (writing f v) at h =
      (i, inside-Advances r i runs (writing f v) at refl)
  busy-Advances r i runs below (releasing a w) at h =
      (i, inside-Advances r i runs (releasing a w) at refl)
  busy-Advances r i runs below p at h =
      absurd (ground (arith, (Runs-Books laws c threads rounds runs).adding i))

  -- Of the first `n` threads each has left its loop, or a turn can be taken.
  left_or_Advances :
      (r : Run L) (n : ℕ)
      → Runs Acquire Release fresh c threads rounds r
      → n ≤ threads
      → (Finished n r) ⊎ ((j : ℕ) × Advances r j)
  left_or_Advances r zero runs h = inl (λ i below. absurd (omega arith))
  left_or_Advances r (suc n) runs h = elim (left_or_Advances r n runs (omega arith)) [
    | inr advance ↦ inr advance
    | inl before ↦ elim (Bool-cases (is_free (r.system.place n))) [
      | inr busy ↦ inr (busy-Advances r n runs (omega arith) (r.system.place n) refl busy)
      | inl free ↦ elim (zero-cases (r.left n)) [
        | inr (m, more) ↦ inr (n, round-Advances r n m runs (omega arith) free more)
        | inl none_left ↦ inl (λ i below. ground (arith, before i))
      ]
    ]
  ]

  finishes_within :
      (fuel : ℕ) (r : Run L)
      → Runs Acquire Release fresh c threads rounds r
      → sum_below threads (needs r) < fuel
      → (r' : Run L) × Runs Acquire Release fresh c threads rounds r' × Finished threads r'
  finishes_within zero r runs h = absurd (omega arith)
  finishes_within (suc fuel) r runs h = elim (left_or_Advances r threads runs (omega arith)) [
    | inl finished ↦ (r, runs, finished)
    | inr (j, advance) ↦
        let less =
          sum_below-less threads j (needs advance.after) (needs r) advance.below advance.less
            advance.same in
        finishes_within fuel advance.after advance.runs (omega arith)
  ]

-- Over an exclusive lock that its holder can release and that can be taken when it is free, no state of
-- the threads is a deadlock: from every reachable one, a state is reachable in which every thread has
-- left its loop.
pub counter_finishes :
    {L : Type 0} {held : L → ℕ → Bool} {Acquire Release : ℕ → L → L → Type 0} {fresh : L}
    (c threads rounds : ℕ) {r : Run L}
    → Exclusive held Acquire Release fresh
    → Live held Acquire Release
    → Runs Acquire Release fresh c threads rounds r
    → (r' : Run L) × Runs Acquire Release fresh c threads rounds r' × Finished threads r'
counter_finishes c threads rounds {r} laws live runs =
    finishes_within laws live c threads rounds (suc (sum_below threads (needs r))) r runs
      (omega arith)
