-- ===== src/Kernel.antt =====
-- The border between the crate and what it calls: the Windows kernel routines of `wdk_sys::ntddk`,
-- the global allocator behind `Box`, and the callbacks that a user hands in. None of these is in
-- the repository, so a `Kernel` is a parameter: any function from the calls made so far, with their
-- replies, to the reply to the next call. A run of the crate's code appends to the log of calls.
pub mod Abi
pub mod Ledger
pub mod Sequences
use ksync.Base.{◌≡◌, refl, ◌∷◌, Result, ok, err}
pub use Abi.{Call, Reply, Event, Log, Kernel}
use Abi.{event}

-- How a piece of code ends: with a value, by a Rust panic, or by undefined behaviour such as a read
-- through a null pointer.
pub data Run (A : Type 0) : Type 0 where
  done : A → Log → Run A
  panicked : Log → Run A
  fault : Log → Run A

abbrev pub M : Type 0 → Type 0
M A = Kernel → Log → Run A

abbrev pub pure : {A : Type 0} → A → M A
pure a k l = done a l

-- `panic!`, `unwrap()` on nothing, `unimplemented!`.
abbrev pub panic : {A : Type 0} → M A
panic k l = panicked l

-- The code dereferences a null pointer.
abbrev pub undefined : {A : Type 0} → M A
undefined k l = fault l

abbrev pub and_then : {A B : Type 0} → Run A → (A → M B) → Kernel → Run B
and_then (done a l) f k = f a k l
and_then (panicked l) f k = panicked l
and_then (fault l) f k = fault l

infixl 5 ◌>>=◌ ◌>>◌
abbrev pub ◌>>=◌ : {A B : Type 0} → M A → (A → M B) → M B
◌>>=◌ m f k l = and_then (m k l) f k

abbrev pub ◌>>◌ : {A B : Type 0} → M A → M B → M B
m >> n = m >>= λ _. n

-- One call of a routine outside the crate.
abbrev pub call : Call → M Reply
call c k l = done (k l c) (event c (k l c) ∷ l)

-- A call whose reply the code drops.
abbrev pub emit : Call → M (Unit {0})
emit c k l = done tt (event c (k l c) ∷ l)

-- The `?` operator inside a function that returns a `Result`.
abbrev pub question : {A B E : Type 0} → Result A E → (A → M (Result B E)) → M (Result B E)
question (ok a) f = f a
question (err e) f = pure (err e)

-- What is left of a run: the log, and whether it ended with a value.
abbrev pub log_of : {A : Type 0} → Run A → Log
log_of (done a l) = l
log_of (panicked l) = l
log_of (fault l) = l

abbrev pub Returns : {A : Type 0} → Run A → (A → Log → Type 0) → Type 0
Returns (done a l) P = P a l
Returns (panicked l) P = ⊥
Returns (fault l) P = ⊥

-- A run that returns is some `done a l`.
pub Returns-run :
    {A : Type 0} {P : A → Log → Type 0} (r : Run A)
    → Returns r P
    → (a : A) × (l : Log) × (r ≡ done a l) × P a l
Returns-run (done a l) p = (a, l, refl, p)
Returns-run (panicked l) p = absurd p
Returns-run (fault l) p = absurd p

-- What a run that returns is followed by returns, when it does so after each of its results.
pub and_then-Returns :
    {A B : Type 0} {P : A → Log → Type 0} (Q : B → Log → Type 0) (r : Run A) (f : A → M B)
    → (k : Kernel) → Returns r P
    → ((a : A) (l : Log) → P a l → Returns (f a k l) Q)
    → Returns (and_then r f k) Q
and_then-Returns Q (done a l) f k now next = next a l now
and_then-Returns Q (panicked l) f k now next = absurd now
and_then-Returns Q (fault l) f k now next = absurd now

-- A run that returns with two things returns with both.
pub Returns-and :
    {A : Type 0} (P Q : A → Log → Type 0) (r : Run A)
    → Returns r P
    → Returns r Q
    → Returns r (λ a l. P a l × Q a l)
Returns-and P Q (done a l) p q = (p, q)
Returns-and P Q (panicked l) p q = p
Returns-and P Q (fault l) p q = p
