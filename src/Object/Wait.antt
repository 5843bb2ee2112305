-- ===== src/Object/Wait.antt =====
-- kobject.rs: `WaitResult` and the trait `Dispatchable`; thread.rs: `sleep`. A relative time of 64
-- bits is its bit pattern.
use ksync.Base.{ℕ, ◌-◌, ◌/◌, ◌%◌, ◌^◌, Bool, ◌==◌, ltb, if◌then◌else◌}
use ksync.Kernel.{M, pure, call, emit, ◌>>=◌}
use ksync.Kernel.Abi.{
  ke_wait_for_single_object, ke_wait_for_single_object_timeout, ke_delay_execution_thread,
}

pub record WaitResult : Type 0 where
  pub status : ℕ

abbrev pub result_new : ℕ → WaitResult
result_new status = record { status = status }

unfoldable pub success : WaitResult → Bool
success w = w.status == 0

unfoldable pub alerted : WaitResult → Bool
alerted w = w.status == 0x101

unfoldable pub apc_delivered : WaitResult → Bool
apc_delivered w = w.status == 0xc0

unfoldable pub timed_out : WaitResult → Bool
timed_out w = w.status == 0x102

-- Signed 64-bit arithmetic on bit patterns: negation, and division by a positive number, which
-- rounds towards zero.
abbrev pub word : ℕ
word = 2 ^ 64

unfoldable pub neg64 : ℕ → ℕ
neg64 x = (word - x % word) % word

unfoldable pub div64 : ℕ → ℕ → ℕ
unfolding neg64
div64 x d = if ltb x (2 ^ 63) then x / d else neg64 (neg64 x / d)

-- `-1 * ms.as_nanos() as i64 / 100`: the cast comes first, then the product, then the quotient.
-- (The product overflows only at the pattern 2^63, where it wraps to itself.)
unfoldable pub due_from_nanos : ℕ → ℕ
unfolding neg64 div64
due_from_nanos nanos = div64 (neg64 (nanos % word)) 100

unfoldable pub wait : (object : ℕ) → (alertable : Bool) → M WaitResult
wait object alertable = do
  r ← call (ke_wait_for_single_object object alertable)
  pure (result_new r.ret)

unfoldable pub wait_for : (object nanos : ℕ) → (alertable : Bool) → M WaitResult
unfolding due_from_nanos
wait_for object nanos alertable = do
  r ← call (ke_wait_for_single_object_timeout object alertable (due_from_nanos nanos))
  pure (result_new r.ret)

-- `this_thread::sleep`
unfoldable pub sleep : (nanos : ℕ) → M (Unit {0})
unfolding due_from_nanos
sleep nanos = emit (ke_delay_execution_thread (due_from_nanos nanos))
