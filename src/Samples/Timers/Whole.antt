-- ===== src/Samples/Timers/Whole.antt =====
-- The whole of `test_timer` and `test_hr_timer` of test.rs, where there is memory.
use ksync.Base.{ℕ, ◌==◌, ◌≡◌, ◌≢◌, Bool, true, false, [], ◌∷◌, null, if◌then◌else◌, Result, ok, err}
use ksync.Kernel.{Kernel, Log}
use ksync.Kernel.Abi.{Call, Reply, ex_allocate_pool, ex_free_pool}
use ksync.NtStatus.{NtError}
use ksync.Timer
use ksync.Timer.Armed.{armed, frees_safely}

-- Whether the block at `p` was obtained from the pool and not returned.
abbrev pub in_use_after : ℕ → Bool → Call → Reply → Bool
in_use_after p b (ex_allocate_pool t size tag) r = if r.ret == p then true else b
in_use_after p b (ex_free_pool q tag) r = if q == p then false else b
in_use_after p b _ r = b

abbrev pub in_use : ℕ → Log → Bool
in_use p [] = false
in_use p (e ∷ l) = in_use_after p (in_use p l) e.what e.reply

-- There is memory, and the pool hands out no block that is in use.
pub record Pool (k : Kernel) : Type 0 where
  pub block : (l : Log) (p size tag : ℕ) → (k l (ex_allocate_pool p size tag)).ret ≢ null
  pub apart : (l : Log) (p size tag : ℕ) → in_use (k l (ex_allocate_pool p size tag)).ret l ≡ false

-- What the threads start from.
abbrev Made : Result Timer.Timer NtError → Log → Type 0
Made (err e) l = ⊥
Made (ok t) l =
    (t.dpc.raw ≢ t.inner)
    × (frees_safely l ≡ true)
    × (armed t.dpc.raw l ≡ false)
    × (armed t.inner l ≡ false)
