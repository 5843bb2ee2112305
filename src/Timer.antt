-- ===== src/Timer.antt =====
-- timer.rs: `Timer`, `HRTimer`, the threaded timers, one-shot delays and the tick resolution.
-- Durations are in nanoseconds; a due time is the bit pattern of a signed 64-bit number.
pub mod Times
pub mod Armed
pub mod Delays
pub mod HighResolution
use ksync.Base.{
  ℕ, ◌+◌, ◌*◌, ◌/◌, ◌%◌, ◌^◌, Bool, true, false, not, ◌==◌, if◌then◌else◌, null, Result, ok, err,
}
use ksync.Kernel.{M, undefined, pure, call, emit, question, ◌>>=◌, ◌>>◌}
use ksync.Kernel.Abi.{
  box_new, box_free, invoke, ex_free_pool, ke_initialize_dpc, ke_initialize_timer, ke_set_timer,
  ke_cancel_timer, ke_read_state_timer, ex_allocate_timer, ex_set_timer, ex_cancel_timer,
  ex_delete_timer, ex_set_timer_resolution,
}
use ksync.NtStatus.{NtError, fail}
use ksync.Utils.{ex_allocate_pool_zero, non_paged_pool_nx}
use ksync.Mutex.Locked.{status_insufficient_resources}
use ksync.Object.Wait.{neg64, word}
use ksync.Dpc
use ksync.Dpc.{Dpc}

-- `u32::from_ne_bytes(*b"rimt")`
abbrev pub timer_tag : ℕ
timer_tag = 0x746d_6972

-- `NotificationTimer` is 0 and `SynchronizationTimer` is 1.
abbrev pub timer_kind : Bool → ℕ
timer_kind is_synch = if is_synch then 1 else 0

-- `-1 * after.as_millis() as i64 * 1_0000`: the cast to 64 bits, then two wrapping products.
unfoldable pub due_from_millis : (nanos : ℕ) → ℕ
unfolding neg64
due_from_millis nanos = neg64 (nanos / 1_000_000 % word) * 10_000 % word

-- `period.as_millis() as _`, a LONG.
unfoldable pub period_millis : (nanos : ℕ) → ℕ
period_millis nanos = nanos / 1_000_000 % 2 ^ 32

-- `(period.as_micros() * 10) as _`, a LONGLONG.
unfoldable pub period_ticks : (nanos : ℕ) → ℕ
period_ticks nanos = nanos / 1000 * 10 % word

pub record Timer : Type 0 where
  pub inner : ℕ
  pub dpc : Dpc

unfoldable pub new : (size dpc_size : ℕ) → (is_synch : Bool) → M (Result Timer NtError)
unfolding ex_allocate_pool_zero Dpc.new
new size dpc_size is_synch = do
  layout ← ex_allocate_pool_zero non_paged_pool_nx size timer_tag
  if layout == null then fail status_insufficient_resources else (do
    emit (ke_initialize_timer layout (timer_kind is_synch))
    r ← Dpc.new dpc_size
    question r (λ dpc. pure (ok (record { inner = layout; dpc = dpc }))))

unfoldable pub get_state : Timer → M Bool
get_state self = do r ← call (ke_read_state_timer self.inner); pure (not (r.ret == 0))

unfoldable pub start : Timer → (after period : ℕ) → M (Unit {0})
unfolding due_from_millis period_millis
start self after period =
    emit (ke_set_timer self.inner (due_from_millis after) (period_millis period) self.dpc.raw)

unfoldable pub stop : Timer → M (Unit {0})
stop self = emit (ke_cancel_timer self.inner)

-- `Drop` of the timer, then of its field `dpc`.
unfoldable pub drop : Timer → M (Unit {0})
unfolding Dpc.drop
drop self = do emit (ex_free_pool self.inner timer_tag); Dpc.drop self.dpc

-- `Timer::delay_run`: the boxes of the DPC, of the callback, of the timer and of the context that holds
-- the last two, in the order in which they are made.
pub record OneShot : Type 0 where
  pub dpc : ℕ
  pub callback : ℕ
  pub timer : ℕ
  pub context : ℕ

unfoldable pub delay_run : (after : ℕ) → M OneShot
unfolding due_from_millis
delay_run after = do
  dpc ← call box_new
  callback ← call box_new
  timer ← call box_new
  context ← call box_new
  emit (ke_initialize_dpc dpc.ret context.ret)
  emit (ke_initialize_timer timer.ret (timer_kind false))
  emit (ke_set_timer timer.ret (due_from_millis after) 0 dpc.ret)
  pure (record { dpc = dpc.ret; callback = callback.ret; timer = timer.ret; context = context.ret })

-- The routine of the one-shot DPC: the locals are dropped at the end, last made first; the context's
-- box goes with the two boxes that it holds.
unfoldable pub oneshot_dpc_routine : OneShot → M (Unit {0})
oneshot_dpc_routine s = do
  emit (invoke s.callback)
  emit (box_free s.dpc)
  emit (box_free s.callback)
  emit (box_free s.timer)
  emit (box_free s.context)

-- `HRTimer`
pub record HrTimer : Type 0 where
  pub raw : ℕ

-- `EX_TIMER_HIGH_RESOLUTION` and `EX_TIMER_NOTIFICATION`
abbrev pub ex_timer_high_resolution : ℕ
ex_timer_high_resolution = 4

abbrev pub ex_timer_notification : ℕ
ex_timer_notification = 0x8000_0000

unfoldable pub hr_new : (callback : Bool) → M (Result HrTimer NtError)
hr_new callback =
    if callback
    then (do
      f ← call box_new
      t ← call (ex_allocate_timer true f.ret ex_timer_high_resolution)
      pure (ok (record { raw = t.ret })))
    else (do
      t ← call (ex_allocate_timer false null ex_timer_high_resolution)
      pure (ok (record { raw = t.ret })))

unfoldable pub hr_start : HrTimer → (after period : ℕ) → M (Unit {0})
unfolding due_from_millis period_ticks
hr_start self after period =
    emit (ex_set_timer self.raw (due_from_millis after) (period_ticks period))

unfoldable pub hr_stop : HrTimer → M (Unit {0})
hr_stop self = emit (ex_cancel_timer self.raw)

unfoldable pub hr_drop : HrTimer → M (Unit {0})
hr_drop self = emit (ex_delete_timer self.raw true true)

-- The routine of a periodic timer: the context becomes a box again, so it is dropped at the end.
unfoldable pub hr_timer_routine_stub : (context : ℕ) → M (Unit {0})
hr_timer_routine_stub context = do emit (invoke context); emit (box_free context)

unfoldable pub hr_timer_routine_once_stub : (timer context : ℕ) → M (Unit {0})
hr_timer_routine_once_stub timer context = do
  emit (invoke context)
  emit (box_free context)
  emit (ex_delete_timer timer false false)

-- The timer and the box of the callback. The answer of `ExAllocateTimer` is not tested, and
-- `ExSetTimer` is undefined on a null pointer.
unfoldable pub hr_delay_run : (after : ℕ) → M (ℕ × ℕ)
unfolding due_from_millis
hr_delay_run after = do
  callback ← call box_new
  t ← call (ex_allocate_timer true callback.ret ex_timer_high_resolution)
  if t.ret == null
      then undefined
      else (do emit (ex_set_timer t.ret (due_from_millis after) 0); pure (t.ret, callback.ret))

-- `res.as_nanos() as u32 / 100`: the cast comes first. The product is in 32 bits.
unfoldable pub set_timer_resolution : (nanos : ℕ) → M ℕ
set_timer_resolution nanos = do
  r ← call (ex_set_timer_resolution (nanos % 2 ^ 32 / 100) 1)
  pure (r.ret * 100 % 2 ^ 32)

unfoldable pub restore_timer_resolution : M (Unit {0})
restore_timer_resolution = emit (ex_set_timer_resolution 0 0)

-- `ThreadTimer`
pub record ThreadTimer : Type 0 where
  pub raw : ℕ

unfoldable pub thread_new : (size : ℕ) → (is_synch : Bool) → M (Result ThreadTimer NtError)
unfolding ex_allocate_pool_zero
thread_new size is_synch = do
  layout ← ex_allocate_pool_zero non_paged_pool_nx size timer_tag
  if layout == null then fail status_insufficient_resources else (do
    emit (ke_initialize_timer layout (timer_kind is_synch))
    pure (ok (record { raw = layout })))

unfoldable pub thread_drop : ThreadTimer → M (Unit {0})
thread_drop self = emit (ex_free_pool self.raw timer_tag)

-- `ThreadHRTimer`; `|=` of two attributes that share no bit is a sum.
unfoldable pub thread_hr_new : (is_sync : Bool) → M (Result HrTimer NtError)
thread_hr_new is_sync = do
  t ← call (
      ex_allocate_timer false null (
        if is_sync
        then ex_timer_high_resolution
        else ex_timer_high_resolution + ex_timer_notification))
  if t.ret == null then fail status_insufficient_resources else pure (ok (record { raw = t.ret }))

unfoldable pub thread_hr_drop : HrTimer → M (Unit {0})
thread_hr_drop self = emit (ex_free_pool self.raw timer_tag)
