-- ===== src/Mutex/Threads/Unlocked.antt =====
-- Accesses to a `Locked` of mutex.rs that take no lock: the guard of `lock_shared`, and `Deref`.
use ksync.Base.{ℕ, ◌≡◌, ◌≢◌, true, arith}
use ksync.Once.Lock.{update}
use ksync.Mutex.Threads.{
  shared, peek, Place, writing, shared_reading, peeking, passed, first, is_free, System, begin,
  pass, Reach, next,
}

-- Thread `i` is about to read the content, with no lock, between the read and the write of thread `j`.
abbrev pub Races :
    {T L : Type 0} → System T L → (reader writer : ℕ) → (T → T) → T → Place T → Type 0
Races t i j f v p = (t.place i ≡ p) × (t.place j ≡ writing f v)

-- A thread that reads through `lock_shared` of a shareable lock, and one that reads through the `Deref`
-- of the `Locked`, are let in while another thread is between the read and the write of its exclusive
-- guard.
pub readers_race :
    {T L : Type 0} {Acquire Release : ℕ → L → L → Type 0} {fresh : L} {c : T} {s : System T L}
    (i j : ℕ) (f : T → T) (v : T)
    → Reach Acquire Release fresh c s
    → i ≢ j
    → is_free (s.place i) ≡ true
    → s.place j ≡ writing f v
    → ((t : System T L) × Reach Acquire Release fresh c t × Races t i j f v shared_reading)
      × ((t : System T L) × Reach Acquire Release fresh c t × Races t i j f v peeking)
unfolding first passed
readers_race {T} {L} {s} i j f v r ne free at =
    let s1 : System T L = record s { place = update s.place i (first (shared true)) } in
    let s2 : System T L = record s1 { place = update s1.place i (passed (shared true)) } in
    let s3 : System T L = record s { place = update s.place i (first peek) } in
    (
      (
        s2,
        next (next r (begin i (shared true) free)) (pass i (shared true) (ground arith)),
        (ground arith, ground arith),
      ),
      (s3, next r (begin i peek free), (ground arith, ground arith)),
    )
