-- ===== src/Mutex/Threads.antt =====
-- `Locked<T, M>` of mutex.rs shared by any number of threads, one access of shared memory at a time.
-- The lock object is the kernel's, so its states `L` and what its routines do to them are parameters:
-- `held l i` says that thread `i` holds it exclusively.
pub mod Invariant
pub mod Progress
pub mod Unlocked
pub mod Alone
pub mod Refine
pub mod Counter
use ksync.Base.{
  ◌⊎◌, ℕ, ◌+◌, ◌==◌, ◌≡◌, Bool, true, false, Option, none, some, List, [], ◌∷◌, if◌then◌else◌,
}
use ksync.Once.Lock.{update}

-- What a thread does with the `Locked`: `if let Ok(mut g) = self.lock() { *g = f(*g) }`,
-- `self.get_cloned()`, a read through the guard of `self.lock_shared()`, and a read through the
-- `Deref` of `Locked` itself, which takes no lock.
pub data Job (T : Type 0) : Type 0 where
  change : (T → T) → Job T
  cloned : Job T
  shared : (shareable : Bool) → Job T  -- `M::shareable()`
  peek : Job T

pub data Place (T : Type 0) : Type 0 where
  idle : Place T
  testing : Job T → Place T  -- before `M::irql_ok`
  locking : Job T → Place T  -- before the acquisition in `MutexGuard::new`
  reading : Job T → Place T  -- has the guard: before the read through it
  writing : (T → T) → T → Place T  -- has read this value: before the write through the guard
  releasing : (answer : Option T) → (wrote : Bool) → Place T  -- before the drop of the guard
  shared_reading : Place T  -- has the guard of `lock_shared`, which acquired nothing
  shared_releasing : T → Place T
  peeking : Place T
  returned : Option T → Place T
  refused : Place T  -- got an error; a debug build panics if the lock is not shareable
  misused : Place T  -- released a lock that it does not hold

module _ {T : Type 0} where
  -- After the test of the interrupt level.
  unfoldable pub passed : Job T → Place T
  passed (change f) = locking (change f)
  passed cloned = locking cloned
  passed (shared true) = shared_reading
  passed (shared false) = refused
  passed peek = peeking

  unfoldable pub first : Job T → Place T
  first peek = peeking
  first job = testing job

  -- A step that does not involve the lock object: the content after it, and the place.
  unfoldable pub step : T → Place T → T × Place T
  step c (reading (change f)) = (c, writing f c)
  step c (reading job) = (c, releasing (some c) false)
  step c (writing f v) = (f v, releasing none true)
  step c shared_reading = (c, shared_releasing c)
  step c (shared_releasing v) = (c, misused)
  step c peeking = (c, returned (some c))
  step c p = (c, p)

  -- The changes made so far, the last one first, each with its thread.
  abbrev pub record_change : ℕ → Place T → List (ℕ × (T → T)) → List (ℕ × (T → T))
  record_change i (writing f v) cs = (i, f) ∷ cs
  record_change i _ cs = cs

  abbrev pub replay : T → List (ℕ × (T → T)) → T
  replay c [] = c
  replay c ((i, f) ∷ cs) = f (replay c cs)

  abbrev pub made_by : ℕ → List (ℕ × (T → T)) → ℕ
  made_by i [] = 0
  made_by i ((j, f) ∷ cs) = (if j == i then 1 else 0) + made_by i cs

  abbrev pub is_free : Place T → Bool
  is_free idle = true
  is_free (returned a) = true
  is_free refused = true
  is_free _ = false

  -- Between the acquisition of the lock and its release.
  abbrev pub inside : Place T → Bool
  inside (reading job) = true
  inside (writing f v) = true
  inside (releasing a w) = true
  inside _ = false

-- `changes` and `updates`, the number of updates that each thread has finished, are no part of the
-- program.
pub record System (T L : Type 0) : Type 0 where
  pub lock : L
  pub content : T
  pub place : ℕ → Place T
  pub changes : List (ℕ × (T → T))
  pub updates : ℕ → ℕ

-- What the kernel promises of a lock for exclusive use.
pub record Exclusive {L : Type 0} (held : L → ℕ → Bool) (Acquire Release : ℕ → L → L → Type 0)
    (fresh : L) : Type 0 where
  pub fresh_free : (i : ℕ) → held fresh i ≡ false
  pub acquire_waits : (i j : ℕ) (l l' : L) → Acquire i l l' → held l j ≡ false
  pub acquire_owns : (i j : ℕ) (l l' : L) → Acquire i l l' → held l' j ≡ (i == j)
  pub release_frees :
      (i j : ℕ) (l l' : L) → Release i l l' → held l' j ≡ (if i == j then false else held l j)

-- Two more promises, for progress: the holder can release, and a free lock can be acquired.
pub record Live {L : Type 0} (held : L → ℕ → Bool) (Acquire Release : ℕ → L → L → Type 0)
    : Type 0 where
  pub release_now : (i : ℕ) (l : L) → held l i ≡ true → (l' : L) × Release i l l'
  pub acquire_now : (i : ℕ) (l : L) → ((j : ℕ) → held l j ≡ false) → (l' : L) × Acquire i l l'
  pub free_or_held : (l : L) → ((j : ℕ) → held l j ≡ false) ⊎ ((j : ℕ) × (held l j ≡ true))

module _ {T L : Type 0} (Acquire Release : ℕ → L → L → Type 0) where
  pub data Step (s : System T L) : System T L → Type 0 where
    begin :
        (i : ℕ) (job : Job T)
        → is_free (s.place i) ≡ true
        → Step s (record s { place = update s.place i (first job) })
    pass :
        (i : ℕ) (job : Job T)
        → s.place i ≡ testing job
        → Step s (record s { place = update s.place i (passed job) })
    refuse :
        (i : ℕ) (job : Job T)
        → s.place i ≡ testing job
        → Step s (record s { place = update s.place i refused })
    acquire :
        (i : ℕ) (job : Job T) (l : L)
        → s.place i ≡ locking job
        → Acquire i s.lock l
        → Step s (record s { lock = l; place = update s.place i (reading job) })
    move :
        (i : ℕ)
        → Step s (record s {
          content = (step s.content (s.place i)).0;
          place = update s.place i (step s.content (s.place i)).1;
          changes = record_change i (s.place i) s.changes;
        })
    release :
        (i : ℕ) (a : Option T) (w : Bool) (l : L)
        → s.place i ≡ releasing a w
        → Release i s.lock l
        → Step s (record s {
          lock = l;
          place = update s.place i (returned a);
          updates = update s.updates i (s.updates i + (if w then 1 else 0));
        })

  abbrev pub start : L → T → System T L
  start fresh c = record {
    lock = fresh;
    content = c;
    place = λ i. idle;
    changes = [];
    updates = λ i. 0;
  }

  pub data Reach (fresh : L) (c : T) : System T L → Type 0 where
    here : Reach fresh c (start fresh c)
    next : {s t : System T L} → Reach fresh c s → Step s t → Reach fresh c t
