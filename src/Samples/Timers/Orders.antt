-- ===== src/Samples/Timers/Orders.antt =====
-- The two threads of `test_timer` and `test_hr_timer` of test.rs, in every order of their turns.
use ksync.Base.{
  ℕ, ◌≡◌, ◌≢◌, ◌+◌, Bool, true, false, not, ◌&&◌, ◌||◌, if◌then◌else◌, List, [], ◌∷◌, arith,
}
use ksync.Kernel.{Run, done, panicked, fault, and_then-Returns, Kernel, Log, Returns}
use ksync.Timer
use ksync.Timer.{start, stop, drop, period_millis}
use ksync.Timer.Armed.{armed, frees_safely}
use ksync.Dpc
use ksync.Samples.Timers.{
  Place, acting, dropping, gone, Threads, release, starter_turn, stopper_turn, turn, turns,
  at_first,
}

unfoldable pub is_acting : Place → Bool
is_acting acting = true
is_acting dropping = false
is_acting gone = false

unfoldable pub is_gone : Place → Bool
is_gone acting = false
is_gone dropping = false
is_gone gone = true

unfoldable pub finished : Threads → Bool
unfolding is_gone
finished s = is_gone s.starter && is_gone s.stopper

-- After the first turn, which was the starter's or the stopper's: who holds an `Arc`, whether the timer
-- is in the queue, and whether it was returned in it.
abbrev Inv : Timer.Timer → (first : Bool) → Threads → Log → Type 0
Inv self first s l =
    (s.arcs ≡ (if is_gone s.starter then 0 else 1) + (if is_gone s.stopper then 0 else 1))
    × (armed self.dpc.raw l ≡ false)
    × (is_acting (if first then s.starter else s.stopper) ≡ false)
    × (armed self.inner l ≡ (if first then is_acting s.stopper else not (is_acting s.starter)))
    × (frees_safely l ≡ (first || not (finished s)))

module _ (self : Timer.Timer) (after period : ℕ) (apart : self.dpc.raw ≢ self.inner)
    (periodic : period_millis period ≢ 0) (k : Kernel) (first : Bool) where
  starter_turn-Inv :
      (arcs : ℕ) (starter stopper : Place) (l : Log)
      → Inv self first (record { arcs = arcs; starter = starter; stopper = stopper }) l
      → Returns
          (starter_turn self after period
            (record { arcs = arcs; starter = starter; stopper = stopper })
            starter
            k
            l)
          (Inv self first)
  unfolding starter_turn release start drop Dpc.drop is_acting is_gone finished
  starter_turn-Inv arcs acting acting l h = ground arith
  starter_turn-Inv arcs acting dropping l h = ground arith
  starter_turn-Inv arcs acting gone l h = ground arith
  starter_turn-Inv arcs dropping acting l h = ground arith
  starter_turn-Inv arcs dropping dropping l h = ground arith
  starter_turn-Inv arcs dropping gone l h = ground arith
  starter_turn-Inv arcs gone stopper l h = h

  stopper_turn-Inv :
      (arcs : ℕ) (starter stopper : Place) (l : Log)
      → Inv self first (record { arcs = arcs; starter = starter; stopper = stopper }) l
      → Returns
          (stopper_turn self
            (record { arcs = arcs; starter = starter; stopper = stopper })
            stopper
            k
            l)
          (Inv self first)
  unfolding stopper_turn release stop drop Dpc.drop is_acting is_gone finished
  stopper_turn-Inv arcs acting acting l h = ground arith
  stopper_turn-Inv arcs dropping acting l h = ground arith
  stopper_turn-Inv arcs gone acting l h = ground arith
  stopper_turn-Inv arcs acting dropping l h = ground arith
  stopper_turn-Inv arcs dropping dropping l h = ground arith
  stopper_turn-Inv arcs gone dropping l h = ground arith
  stopper_turn-Inv arcs starter gone l h = h

  turn-Inv :
      (s : Threads) (who : Bool) (l : Log)
      → Inv self first s l
      → Returns (turn self after period s who k l) (Inv self first)
  unfolding turn
  turn-Inv s true l h = starter_turn-Inv s.arcs s.starter s.stopper l h
  turn-Inv s false l h = stopper_turn-Inv s.arcs s.starter s.stopper l h

  turns-Inv :
      (s : Threads) (order : List Bool) (l : Log)
      → Inv self first s l
      → Returns (turns self after period s order k l) (Inv self first)
  unfolding turns
  turns-Inv s [] l h = h
  turns-Inv s (who ∷ order) l h =
      and_then-Returns {P = Inv self first} (Inv self first) (turn self after period s who k l)
        (λ s'. turns self after period s' order) k (turn-Inv s who l h)
        (λ s' l1 h'. turns-Inv s' order l1 h')

-- The first turn, whoever's it is, establishes the invariant.
first_turn-Inv :
    (self : Timer.Timer) (after period : ℕ)
    → self.dpc.raw ≢ self.inner
    → period_millis period ≢ 0
    → (k : Kernel) (first : Bool) (l : Log) → frees_safely l ≡ true
    → armed self.dpc.raw l ≡ false
    → armed self.inner l ≡ false
    → Returns (turn self after period at_first first k l) (Inv self first)
unfolding turn starter_turn stopper_turn start stop is_acting is_gone finished
first_turn-Inv self after period apart periodic k true l fine idle out = ground arith
first_turn-Inv self after period apart periodic k false l fine idle out = ground arith

-- The blocks in a run that keeps the invariant.
Inv-freed :
    (self : Timer.Timer) (first : Bool) (r : Run Threads)
    → Returns r (Inv self first)
    → Returns r (λ s l. frees_safely l ≡ (first || not (finished s)))
Inv-freed self first (done s l) h = let (counted, idle, acted, queued, freed) = h in freed
Inv-freed self first (panicked l) h = h
Inv-freed self first (fault l) h = h

-- With a timer that no queue holds and whose DPC lies in another block.
pub turns-safely :
    (self : Timer.Timer) (after period : ℕ)
    → self.dpc.raw ≢ self.inner
    → period_millis period ≢ 0
    → (k : Kernel) (first : Bool) (order : List Bool) (l : Log) → frees_safely l ≡ true
    → armed self.dpc.raw l ≡ false
    → armed self.inner l ≡ false
    → Returns
        (turns self after period at_first (first ∷ order) k l)
        (λ s l'. frees_safely l' ≡ (first || not (finished s)))
unfolding turns
turns-safely self after period apart periodic k first order l fine idle out =
    Inv-freed self first (turns self after period at_first (first ∷ order) k l) (
      and_then-Returns {P = Inv self first} (Inv self first)
        (turn self after period at_first first k l) (λ s'. turns self after period s' order) k
        (first_turn-Inv self after period apart periodic k first l fine idle out)
        (λ s' l1 h'. turns-Inv self after period apart periodic k first s' order l1 h'))
