-- ===== src/Mutex/Threads/Counter/Sums.antt =====
-- Sums over the first threads, for the shared counter of src/test.rs.
use ksync.Base.{
  sym, true, ℕ, zero, suc, ◌+◌, ◌*◌, ◌<◌, ◌≡◌, ◌≢◌, ◌==◌, refl, ltb, arith, if◌then◌else◌, inl, inr,
  Bool-cases,
}

abbrev pub sum_below : ℕ → (ℕ → ℕ) → ℕ
sum_below zero f = 0
sum_below (suc n) f = sum_below n f + f n

pub sum_below-equal :
    (n : ℕ) (f g : ℕ → ℕ) → ((i : ℕ) → i < n → f i ≡ g i) → sum_below n f ≡ sum_below n g
sum_below-equal zero f g e = refl
sum_below-equal (suc n) f g e =
    omega (arith, sum_below-equal n f g (λ i h. e i (omega arith)), e n (omega arith))

pub sum_below-add :
    (n : ℕ) (f g : ℕ → ℕ) → sum_below n (λ i. f i + g i) ≡ sum_below n f + sum_below n g
sum_below-add zero f g = refl
sum_below-add (suc n) f g = omega (arith, sum_below-add n f g)

pub sum_below-zero : (n : ℕ) → sum_below n (λ i. 0) ≡ 0
sum_below-zero zero = refl
sum_below-zero (suc n) = omega (arith, sum_below-zero n)

pub sum_below-constant : (n m : ℕ) → sum_below n (λ i. m) ≡ n * m
sum_below-constant zero m = omega arith
sum_below-constant (suc n) m = omega (arith, sum_below-constant n m)

-- One term of the sum is one.
pub sum_below-one :
    (n j : ℕ) → sum_below n (λ i. if j == i then 1 else 0) ≡ (if ltb j n then 1 else 0)
sum_below-one zero j = ground arith
sum_below-one (suc n) j = ground (arith, sum_below-one n j)

-- A sum falls when one of its terms falls and the others stay.
pub sum_below-less :
    (n i : ℕ) (f g : ℕ → ℕ)
    → i < n
    → f i < g i
    → ((j : ℕ) → i ≢ j → f j ≡ g j)
    → sum_below n f < sum_below n g
sum_below-less zero i f g h less same = absurd (omega arith)
sum_below-less (suc n) i f g h less same = elim (Bool-cases (i == n)) [
  | inl here ↦
      omega (arith, sum_below-equal n f g (λ j below. same j (ground (arith, here))), last here)
  | inr elsewhere ↦ omega (
    arith,
    sum_below-less n i f g (ground (arith, elsewhere)) less same,
    same n (ground (arith, elsewhere)),
  )
]
  where
    last : (i == n) ≡ true → f n < g n
    last here = let e : i ≡ n = ground (arith, here) in rw (sym e) less

-- A sum changes by the change of one of its terms when the others stay.
pub sum_below-changed :
    (n i : ℕ) (f g : ℕ → ℕ)
    → i < n
    → ((j : ℕ) → i ≢ j → g j ≡ f j)
    → sum_below n g + f i ≡ sum_below n f + g i
sum_below-changed zero i f g h same = absurd (omega arith)
sum_below-changed (suc n) i f g h same = elim (Bool-cases (i == n)) [
  | inl here ↦
      let e : i ≡ n = ground (arith, here) in
      let rest = sum_below-equal n g f (λ j below. same j (ground (arith, here))) in
      rw e (omega (arith, rest))
  | inr elsewhere ↦ omega (
    arith,
    sum_below-changed n i f g (ground (arith, elsewhere)) same,
    same n (ground (arith, elsewhere)),
  )
]
