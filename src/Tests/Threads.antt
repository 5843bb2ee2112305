-- ===== src/Tests/Threads.antt =====
-- Threads that share a `Locked` of mutex.rs, over a lock that is its holder.
use ksync.Base.{
  zero, suc, ◌*◌, ◌%◌, ◌^◌, ◌⊎◌, ℕ, ◌+◌, ◌≡◌, ◌==◌, refl, Bool, true, false, Option, none, some,
  inl, inr, arith,
}
use ksync.Once.Lock.{update}
use ksync.Mutex.Threads
use ksync.Mutex.Threads.{
  Job, change, cloned, System, Exclusive, Live, Reach, here, next, begin, pass, acquire, move,
  start, inside, replay, made_by,
}
use ksync.Mutex.Threads.Invariant
use ksync.Mutex.Threads.Refine
use ksync.Mutex.Threads.Unlocked
use ksync.Mutex.Threads.Counter.Sums.{sum_below}
use ksync.Mutex.Threads.Counter.Total.{counter_total}
use ksync.Mutex.Threads.Counter.Progress.{counter_finishes}
use ksync.Mutex.Threads.Counter
use ksync.Mutex.Threads.Counter.{increment, Run, Runs, spawned, then_turn, round, work}

abbrev held : Option ℕ → ℕ → Bool
held none i = false
held (some j) i = j == i

abbrev Acquire : ℕ → Option ℕ → Option ℕ → Type 0
Acquire i l l' = (l ≡ none) × (l' ≡ some i)

abbrev Release : ℕ → Option ℕ → Option ℕ → Type 0
Release i l l' = (l ≡ some i) × (l' ≡ none)

owner-Exclusive : Exclusive held Acquire Release none
owner-Exclusive = record {
  fresh_free = λ i. refl;
  acquire_waits = λ i j l l' a. ground (arith, a);
  acquire_owns = λ i j l l' a. ground (arith, a);
  release_frees = λ i j l l' a. ground (arith, a);
}

owner_free_or_held : (l : Option ℕ) → ((j : ℕ) → held l j ≡ false) ⊎ ((j : ℕ) × (held l j ≡ true))
owner_free_or_held none = inl (λ j. refl)
owner_free_or_held (some j) = inr (j, ground arith)

free-none : (l : Option ℕ) → ((j : ℕ) → held l j ≡ false) → l ≡ none
free-none none h = refl
free-none (some j) h = absurd (ground (arith, h j))

owner-Live : Live held Acquire Release
owner-Live = record {
  release_now = λ i l h. (none, (ground (arith, h), refl));
  acquire_now = λ i l h. (some i, (free-none l h, refl));
  free_or_held = owner_free_or_held;
}

abbrev add_one : ℕ → ℕ
add_one n = n + 1

abbrev asked : System ℕ (Option ℕ)
asked = record (start Acquire Release none 5) {
  place = update (start Acquire Release none 5).place 0 (Threads.first (change add_one));
}

abbrev tested : System ℕ (Option ℕ)
tested = record asked { place = update asked.place 0 (Threads.passed (change add_one)) }

abbrev entered : System ℕ (Option ℕ)
entered = record tested {
  lock = some 0;
  place = update tested.place 0 (Threads.reading (change add_one));
}

abbrev second : System ℕ (Option ℕ)
second = record entered { place = update entered.place 1 (Threads.first cloned) }

abbrev blocked : System ℕ (Option ℕ)
blocked = record second { place = update second.place 1 (Threads.passed cloned) }

-- Thread 0 has read 5 under the guard; thread 1 waits for the lock.
abbrev between : System ℕ (Option ℕ)
between = record blocked {
  content = (Threads.step blocked.content (blocked.place 0)).0;
  place = update blocked.place 0 (Threads.step blocked.content (blocked.place 0)).1;
  changes = Threads.record_change 0 (blocked.place 0) blocked.changes;
}

between-Reach : Reach Acquire Release none 5 between
unfolding Threads.first Threads.passed
between-Reach =
    next
      (next
        (next
          (next (next (next here (begin 0 (change add_one) refl)) (pass 0 (change add_one) refl))
            (acquire 0 (change add_one) (some 0) refl (refl, refl)))
          (begin 1 cloned refl))
        (pass 1 cloned refl))
      (move 0)

-- Thread 0 writes 6.
abbrev after_write : System ℕ (Option ℕ)
after_write = record between {
  content = (Threads.step between.content (between.place 0)).0;
  place = update between.place 0 (Threads.step between.content (between.place 0)).1;
  changes = Threads.record_change 0 (between.place 0) between.changes;
}

step_refines_example : (i : ℕ) × Refine.Moves between after_write i
step_refines_example =
    Refine.step_refines {s = between} {t = after_write} owner-Exclusive between-Reach (move 0)

guards_exclude_example : inside (between.place 1) ≡ false
unfolding Threads.step Threads.first
guards_exclude_example =
    Invariant.guards_exclude {s = between} 0 1 owner-Exclusive between-Reach (omega arith) refl

updates_serial_example :
    (between.content ≡ replay 5 between.changes)
    × (made_by 0 between.changes ≡ between.updates 0 + Invariant.pending (between.place 0))
updates_serial_example = Invariant.updates_serial {s = between} 0 owner-Exclusive between-Reach

readers_race_example :
    ((t : System ℕ (Option ℕ)) × Reach Acquire Release none 5 t
      × Unlocked.Races t 2 0 add_one 5 Threads.shared_reading)
    × ((t : System ℕ (Option ℕ)) × Reach Acquire Release none 5 t
        × Unlocked.Races t 2 0 add_one 5 Threads.peeking)
unfolding Threads.step Threads.first Threads.passed
readers_race_example =
    Unlocked.readers_race {s = between} 2 0 add_one 5 between-Reach (omega arith) refl refl

-- A run of two threads with one round each: thread 0 asks first, and thread 1 waits for it.
abbrev Counted : Type 0
Counted = (r : Run (Option ℕ)) × Runs Acquire Release none 0 2 1 r

abbrev begins :
    (c : Counted) (i n : ℕ)
    → Threads.is_free (c.0.system.place i) ≡ true
    → c.0.left i ≡ suc n
    → Counted
begins c i n free more = (_, then_turn c.1 (round i n free more))

abbrev goes_on :
    (c : Counted) {t : System ℕ (Option ℕ)} (st : Threads.Step Acquire Release c.0.system t)
    → Counter.begins st ≡ false
    → Counted
goes_on c st works = (_, then_turn c.1 (work st works))

-- Thread 0 has the guard and thread 1 waits.
unfoldable counting : Counted
unfolding Threads.first Threads.passed
counting =
    let job = change increment in
    let a : Counted = begins (_, spawned) 0 0 refl refl in
    let b : Counted = goes_on a (pass 0 job refl) refl in
    let c : Counted = begins b 1 0 refl refl in
    let d : Counted = goes_on c (pass 1 job refl) refl in
    goes_on d (acquire 0 job (some 0) refl (refl, refl)) refl

-- A thread that has the guard adds one and leaves.
unfoldable counted : Counted
unfolding counting Threads.first Threads.passed Threads.step
counted =
    let a : Counted = goes_on (goes_on counting (move 0) refl) (move 0) refl in
    let b : Counted = goes_on a (Threads.release 0 none true none refl (refl, refl)) refl in
    let c : Counted = goes_on b (acquire 1 (change increment) (some 1) refl (refl, refl)) refl in
    let d : Counted = goes_on (goes_on c (move 1) refl) (move 1) refl in
    goes_on d (Threads.release 1 none true none refl (refl, refl)) refl

counted-Finished : Counter.Finished 2 counted.0
unfolding counted
counted-Finished zero h = (refl, refl)
counted-Finished (suc zero) h = (refl, refl)
counted-Finished (suc (suc i)) h = absurd (omega arith)

counter_total_example :
    (n : ℕ) × (n + sum_below 2 counted.0.failed ≡ 2 * 1)
    × (counted.0.system.content ≡ (0 + n) % 2 ^ 32)
counter_total_example =
    counter_total 0 2 1 {r = counted.0} owner-Exclusive (omega arith) counted.1 counted-Finished

counter_finishes_example :
    (r : Run (Option ℕ)) × Runs Acquire Release none 0 2 1 r × Counter.Finished 2 r
counter_finishes_example =
    counter_finishes 0 2 1 {r = counting.0} owner-Exclusive owner-Live counting.1
