-- ===== src/Mutex/Threads/Counter/Total.antt =====
-- What the shared counter of src/test.rs ends with.
use ksync.Base.{
  ◌∙◌, ℕ, ◌+◌, ◌*◌, ◌%◌, ◌^◌, ◌<◌, ◌≡◌, ◌==◌, Bool, List, [], ◌∷◌, length, arith, if◌then◌else◌,
}
use ksync.Mutex.Threads.{replay, made_by, Exclusive}
use ksync.Mutex.Threads.Invariant.{Reach-Inv}
use ksync.Mutex.Threads.Counter.Sums.{
  sum_below, sum_below-equal, sum_below-add, sum_below-zero, sum_below-constant, sum_below-one,
}
use ksync.Mutex.Threads.Counter.{increment, Run, Runs, Finished, Adds, Runs-Books}

replay-increment :
    (n c : ℕ) (cs : List (ℕ × (ℕ → ℕ)))
    → c < 2 ^ 32
    → Adds n cs
    → replay c cs ≡ (c + length cs) % 2 ^ 32
unfolding increment
replay-increment n c [] small adds = omega arith
replay-increment n c ((j, f) ∷ cs) small (below, e, adds) =
    rw (e, replay-increment n c cs small adds) (omega arith)

sum_below-made_by :
    (n : ℕ) (cs : List (ℕ × (ℕ → ℕ))) → Adds n cs → sum_below n (λ i. made_by i cs) ≡ length cs
sum_below-made_by n [] adds = sum_below-zero n
sum_below-made_by n ((j, f) ∷ cs) (below, e, adds) = ground (
  arith,
  sum_below-add n (λ i. if j == i then 1 else 0) (λ i. made_by i cs),
  sum_below-one n j,
  sum_below-made_by n cs adds,
)

-- Over any lock that is exclusive, when every thread has left its loop the counter has grown, modulo
-- 2^32, by one for each round of each thread in which `lock` succeeded; in particular by the number of
-- threads times the number of rounds where it never failed.
pub counter_total :
    {L : Type 0} {held : L → ℕ → Bool} {Acquire Release : ℕ → L → L → Type 0} {fresh : L}
    (c threads rounds : ℕ) {r : Run L}
    → Exclusive held Acquire Release fresh
    → c < 2 ^ 32
    → Runs Acquire Release fresh c threads rounds r
    → Finished threads r
    → (n : ℕ) × (n + sum_below threads r.failed ≡ threads * rounds)
      × (r.system.content ≡ (c + n) % 2 ^ 32)
counter_total c threads rounds {r} laws small runs finished =
    let books = Runs-Books laws c threads rounds runs in
    let inv = Reach-Inv laws c books.reached in
    let cs = r.system.changes in
    let each : (i : ℕ) → i < threads → made_by i cs + r.failed i ≡ rounds =
      λ i h. ground (arith, inv.counted i, books.balance i, finished i h) in
    (
      length cs,
      omega (
        arith,
        sum_below-made_by threads cs books.adds,
        sum_below-add threads (λ i. made_by i cs) r.failed,
        sum_below-equal threads (λ i. made_by i cs + r.failed i) (λ i. rounds) each,
        sum_below-constant threads rounds,
      ),
      inv.serial ∙ replay-increment threads c cs small books.adds,
    )
