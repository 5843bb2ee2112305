-- ===== src/Mutex/Threads/Progress.antt =====
-- A thread that waits for a `Locked` of mutex.rs can be let in.
use ksync.Base.{
  ℕ, ◌≡◌, ◌≢◌, inl, inr, refl, ◌∙◌, Bool, true, false, Option, none, some, arith, if◌then◌else◌,
  ◌+◌,
}
use ksync.Once.Lock.{update}
use ksync.Mutex.Threads.{
  Job, change, cloned, shared, peek, Place, idle, testing, locking, reading, writing, releasing,
  shared_reading, shared_releasing, peeking, returned, refused, misused, step, record_change,
  inside, System, Exclusive, Live, acquire, move, release, Reach, next,
}
use ksync.Mutex.Threads.Invariant.{Reach-Inv}

module _ {T L : Type 0} {held : L → ℕ → Bool} {Acquire Release : ℕ → L → L → Type 0} {fresh : L}
    (laws : Exclusive held Acquire Release fresh) (live : Live held Acquire Release) (c : T) where
  -- Thread `j` leaves: a state is reachable where the lock is free and the others are where they were.
  abbrev Leaves : ℕ → System T L → Type 0
  Leaves j s =
      (t : System T L) × Reach Acquire Release fresh c t
      × ((n : ℕ) → held t.lock n ≡ false)
      × ((i : ℕ) → i ≢ j → t.place i ≡ s.place i)

  abbrev moved : ℕ → System T L → System T L
  moved i s = record s {
    content = (step s.content (s.place i)).0;
    place = update s.place i (step s.content (s.place i)).1;
    changes = record_change i (s.place i) s.changes;
  }

  leave_releasing :
      (s : System T L) (j : ℕ) (a : Option T) (w : Bool)
      → Reach Acquire Release fresh c s
      → s.place j ≡ releasing a w
      → Leaves j s
  leave_releasing s j a w r at =
      let inv = Reach-Inv laws c r in
      let mine : held s.lock j ≡ true = ground (arith, inv.holds j) in
      let (l, gone) = live.release_now j s.lock mine in
      (
        record s {
          lock = l;
          place = update s.place j (returned a);
          updates = update s.updates j (s.updates j + (if w then 1 else 0));
        },
        next r (release j a w l at gone),
        λ n. ground (arith, laws.release_frees j n s.lock l gone, inv.sole j n),
        λ i ne. ground arith,
      )

  -- A move of `j` on the way out.
  leave-moved : (s : System T L) (j : ℕ) → Leaves j (moved j s) → Leaves j s
  leave-moved s j (t, r, free, same) = (t, r, free, λ i ne. same i ne ∙ ground arith)

  leave_writing :
      (s : System T L) (j : ℕ) (f : T → T) (v : T)
      → Reach Acquire Release fresh c s
      → s.place j ≡ writing f v
      → Leaves j s
  unfolding step
  leave_writing s j f v r at =
      leave-moved s j (leave_releasing (moved j s) j none true (next r (move j)) (ground arith))

  leave_reading :
      (s : System T L) (j : ℕ) (job : Job T)
      → Reach Acquire Release fresh c s
      → s.place j ≡ reading job
      → Leaves j s
  unfolding step
  leave_reading s j (change f) r at =
      leave-moved s j (leave_writing (moved j s) j f s.content (next r (move j)) (ground arith))
  leave_reading s j cloned r at =
      leave-moved s j
        (leave_releasing (moved j s) j (some s.content) false (next r (move j)) (ground arith))
  leave_reading s j (shared b) r at =
      leave-moved s j
        (leave_releasing (moved j s) j (some s.content) false (next r (move j)) (ground arith))
  leave_reading s j peek r at =
      leave-moved s j
        (leave_releasing (moved j s) j (some s.content) false (next r (move j)) (ground arith))

  leave :
      (s : System T L) (j : ℕ) (p : Place T)
      → Reach Acquire Release fresh c s
      → s.place j ≡ p
      → inside p ≡ true
      → Leaves j s
  leave s j (reading job) r at h = leave_reading s j job r at
  leave s j (writing f v) r at h = leave_writing s j f v r at
  leave s j (releasing a w) r at h = leave_releasing s j a w r at
  leave s j idle r at h = absurd (cc)
  leave s j (testing job) r at h = absurd (cc)
  leave s j (locking job) r at h = absurd (cc)
  leave s j shared_reading r at h = absurd (cc)
  leave s j (shared_releasing v) r at h = absurd (cc)
  leave s j peeking r at h = absurd (cc)
  leave s j (returned a) r at h = absurd (cc)
  leave s j refused r at h = absurd (cc)
  leave s j misused r at h = absurd (cc)

  enter_free :
      (s : System T L) (i : ℕ) (job : Job T)
      → Reach Acquire Release fresh c s
      → s.place i ≡ locking job
      → ((n : ℕ) → held s.lock n ≡ false)
      → (t : System T L) × Reach Acquire Release fresh c t × (t.place i ≡ reading job)
  enter_free s i job r at free =
      let (l, got) = live.acquire_now i s.lock free in
      (
        record s { lock = l; place = update s.place i (reading job) },
        next r (acquire i job l at got),
        ground arith,
      )

-- Over an exclusive lock that its holder can release and that can be taken when it is free, no thread
-- is shut out: from every reachable state in which one waits for the lock, a state is reachable in
-- which it has the guard.
pub waiting_enters :
    {T L : Type 0} {held : L → ℕ → Bool} {Acquire Release : ℕ → L → L → Type 0} {fresh : L} {c : T}
    {s : System T L} (i : ℕ) (job : Job T)
    → Exclusive held Acquire Release fresh
    → Live held Acquire Release
    → Reach Acquire Release fresh c s
    → s.place i ≡ locking job
    → (t : System T L) × Reach Acquire Release fresh c t × (t.place i ≡ reading job)
waiting_enters {c} {s} i job laws live r at = elim (live.free_or_held s.lock) [
  | inl free ↦ enter_free laws live c s i job r at free
  | inr (j, taken) ↦
      let inv = Reach-Inv laws c r in
      let h : inside (s.place j) ≡ true = inv.holds j ∙ taken in
      let ne : i ≢ j = ground (arith, h) in
      let (t, r', free, same) = leave laws live c s j (s.place j) r refl h in
      enter_free laws live c t i job r' (same i ne ∙ at) free
]
