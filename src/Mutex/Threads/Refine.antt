-- ===== src/Mutex/Threads/Refine.antt =====
-- The threads of Mutex/Threads as clients of a variable that answers each operation at once.
use ksync.Base.{ℕ, ◌≡◌, Bool, true, Option, none, some, arith}
use ksync.Mutex.Threads.{
  Job, change, cloned, shared, peek, Place, idle, testing, locking, reading, writing, releasing,
  shared_reading, shared_releasing, peeking, returned, refused, misused, passed, first, step,
  System, Exclusive, Step, begin, pass, refuse, acquire, move, release, Reach,
}
use ksync.Mutex.Threads.Invariant.{Reach-Inv}
use ksync.Once.Lock.{update}

-- Where a client of the variable is: it has asked for an operation, it was answered, it was denied, or
-- it is lost, since it released a lock that it does not hold.
pub data Stage (T : Type 0) : Type 0 where
  resting : Stage T
  asked : Job T → Stage T
  answered : Option T → Stage T
  denied : Stage T
  lost : Stage T

module _ {T : Type 0} where
  -- An operation on the variable, and its answer.
  abbrev pub apply : Job T → T → T × Option T
  apply (change f) c = (f c, none)
  apply cloned c = (c, some c)
  apply (shared b) c = (c, some c)
  apply peek c = (c, some c)

  -- What may become of a client and the variable in one step: nothing, a new operation, the whole
  -- operation that was asked for, or a denial that leaves the variable alone.
  abbrev pub Atomic : T → Stage T → T → Stage T → Type 0
  Atomic c (asked job) c' (asked job') = (c' ≡ c) × (job' ≡ job)
  Atomic c (asked job) c' (answered a) = (c' ≡ (apply job c).0) × (a ≡ (apply job c).1)
  Atomic c (asked job) c' denied = c' ≡ c
  Atomic c (answered a) c' (answered b) = (c' ≡ c) × (b ≡ a)
  Atomic c (answered a) c' (asked job) = c' ≡ c
  Atomic c (answered a) c' lost = c' ≡ c
  Atomic c resting c' resting = c' ≡ c
  Atomic c resting c' (asked job) = c' ≡ c
  Atomic c denied c' denied = c' ≡ c
  Atomic c denied c' (asked job) = c' ≡ c
  Atomic c lost c' lost = c' ≡ c
  Atomic c p c' q = ⊥

  abbrev pub stage : Place T → Stage T
  stage idle = resting
  stage (testing job) = asked job
  stage (locking job) = asked job
  stage (reading job) = asked job
  stage (writing f v) = asked (change f)
  stage (releasing a w) = answered a
  stage shared_reading = asked (shared true)
  stage (shared_releasing v) = answered (some v)
  stage peeking = asked peek
  stage (returned a) = answered a
  stage refused = denied
  stage misused = lost

  -- Thread `i` takes a step, and the other threads stay.
  abbrev pub Moves : {L : Type 0} → System T L → System T L → ℕ → Type 0
  Moves s t i =
      Atomic s.content (stage (s.place i)) t.content (stage (t.place i))
      × ((j : ℕ) → t.place j ≡ update s.place i (t.place i) j)

-- Over any lock that is exclusive, each step of a thread is, for a client of a variable, nothing, the
-- start of an operation, a denial, or the whole operation at once with its answer, or the misuse of the
-- lock that ends a read under `lock_shared`: the content of the `Locked` is that variable, an update
-- through a guard takes effect when it writes, and `get_cloned` when it reads; no other thread's
-- operation moves in that step.
pub step_refines :
    {T L : Type 0} {held : L → ℕ → Bool} {Acquire Release : ℕ → L → L → Type 0} {fresh : L} {c : T}
    {s t : System T L}
    → Exclusive held Acquire Release fresh
    → Reach Acquire Release fresh c s
    → Step Acquire Release s t
    → (i : ℕ) × Moves s t i
unfolding first passed step
step_refines {c} {s} laws r (begin i job free) = (i, (ground arith, λ j. ground arith))
step_refines {c} {s} laws r (pass i job at) = (i, (ground (arith, at), λ j. ground arith))
step_refines {c} {s} laws r (refuse i job at) = (i, (ground (arith, at), λ j. ground arith))
step_refines {c} {s} laws r (acquire i job l at got) = (i, (ground (arith, at), λ j. ground arith))
step_refines {c} {s} laws r (move i) =
    let inv = Reach-Inv laws c r in (i, (ground (arith, inv.fits i), λ j. ground arith))
step_refines {c} {s} laws r (release i a w l at gone) = (i, (ground (arith, at), λ j. ground arith))
