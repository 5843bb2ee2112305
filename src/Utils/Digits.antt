-- ===== src/Utils/Digits.antt =====
-- `|` on words: the law for the lowest binary digit, and packing by a shift and an `|`.
use Prim.Native.Nat.{max, bit_or, digits, bit_or-bitwise}
use ksync.Base.{ℕ, zero, suc, ◌+◌, ◌*◌, ◌/◌, ◌%◌, ◌^◌, ◌≤◌, ◌<◌, ◌≡◌, refl, arith}

-- The definition that the native operation stands for, with a count of digits to go.
abbrev or_digits : ℕ → ℕ → ℕ → ℕ
or_digits n a b = digits (λ b. b) max n a b

or_digits-enough : (n m a b : ℕ) → a ≤ n → a ≤ m → or_digits n a b ≡ or_digits m a b
or_digits-enough zero zero a b p q = refl
or_digits-enough zero (suc m) zero b p q = refl
or_digits-enough zero (suc m) (suc a) b p q = absurd (omega arith)
or_digits-enough (suc n) zero zero b p q = refl
or_digits-enough (suc n) zero (suc a) b p q = absurd (omega arith)
or_digits-enough (suc n) (suc m) zero b p q = refl
or_digits-enough (suc n) (suc m) (suc a) b p q =
    omega (arith, or_digits-enough n m (suc a / 2) (b / 2) (omega arith) (omega arith))

pub zero-bit_or : (b : ℕ) → bit_or 0 b ≡ b
zero-bit_or b = bit_or-bitwise 0 b

-- The lowest digit of an `|`, and the rest of it.
pub bit_or-digit : (a b : ℕ) → bit_or a b ≡ bit_or (a / 2) (b / 2) * 2 + max (a % 2) (b % 2)
bit_or-digit zero b = omega (arith, zero-bit_or b, zero-bit_or (b / 2))
bit_or-digit (suc a) b = omega (
  arith,
  bit_or-bitwise (suc a) b,
  bit_or-bitwise (suc a / 2) (b / 2),
  or_digits-enough a (suc a / 2) (suc a / 2) (b / 2) (omega arith) (omega arith),
)

bit_or-zero_below : (n a : ℕ) → a ≤ n → bit_or a 0 ≡ a
bit_or-zero_below n zero h = refl
bit_or-zero_below zero (suc a) h = absurd (omega arith)
bit_or-zero_below (suc n) (suc a) h =
    omega (arith, bit_or-digit (suc a) 0, bit_or-zero_below n (suc a / 2) (omega arith))

pub bit_or-zero : (a : ℕ) → bit_or a 0 ≡ a
bit_or-zero a = bit_or-zero_below a a (omega arith)

-- A number shifted by n, and one that fits in n digits: the `|` is the sum.
shift-digit : (n a : ℕ) → a * 2 ^ suc n ≡ a * 2 ^ n * 2
shift-digit n a = grind arith

pub bit_or-pack : (n a b : ℕ) → b < 2 ^ n → bit_or (a * 2 ^ n) b ≡ a * 2 ^ n + b
bit_or-pack zero a b h =
    let empty : b ≡ 0 = omega arith in rw empty (omega (arith, bit_or-zero (a * 1)))
bit_or-pack (suc n) a b h =
    let shifted : ℕ = a * 2 ^ n in
    let half : (a * 2 ^ suc n) / 2 ≡ shifted = omega (arith, shift-digit n a) in
    rw (bit_or-digit (a * 2 ^ suc n) b, half, bit_or-pack n a (b / 2) (grind arith))
      (omega (arith, shift-digit n a))
