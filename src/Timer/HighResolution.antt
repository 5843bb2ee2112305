-- ===== src/Timer/HighResolution.antt =====
-- Memory and timers of the high resolution timers of timer.rs.
use ksync.Base.{ℕ, Bool, true, false, ◌+◌, ◌≡◌, ◌≢◌, null, arith, ok, err}
use ksync.Kernel.{Kernel, Log, M, pure, Returns, ◌>>=◌, ◌>>◌}
use ksync.Kernel.Abi
use ksync.Kernel.Ledger.{
  total, boxes, unboxes, sound, makes_timer, deletes_timer, allocates, frees, one_if,
}
use ksync.NtStatus.{new as error_new}
use ksync.Timer.{
  hr_new, hr_start, hr_stop, hr_drop, hr_delay_run, hr_timer_routine_once_stub, thread_hr_new,
  thread_hr_drop,
}

-- The executive has memory for timers.
abbrev pub TimerRoom : Kernel → Type 0
TimerRoom k = (l : Log) (f : Bool) (c a : ℕ) → (k l (Abi.ex_allocate_timer f c a)).ret ≢ null

-- A one-shot delay, and the routine that the kernel runs when it expires.
unfoldable pub hr_delayed : (after : ℕ) → M ℕ
hr_delayed after = do r ← hr_delay_run after; hr_timer_routine_once_stub r.0 r.1; pure r.0

-- Where the executive has memory for timers, from a sound state, a one-shot delay on a high resolution
-- timer whose routine has run was sound; the box of the closure is dropped, and the one timer that was
-- made is deleted.
pub hr_delayed-clean :
    (after : ℕ) (k : Kernel) (l : Log)
    → TimerRoom k
    → sound l ≡ true
    → Returns (hr_delayed after k l) λ t l'.
      (sound l' ≡ true)
      × (total boxes l' ≡ total boxes l + 1)
      × (total unboxes l' ≡ total unboxes l + 1)
      × (total makes_timer l' ≡ total makes_timer l + 1)
      × (total (deletes_timer t) l' ≡ total (deletes_timer t) l + 1)
unfolding hr_delayed hr_delay_run hr_timer_routine_once_stub
hr_delayed-clean after k l room fine = grind (arith, room)

-- A timer that is made, started, stopped and dropped.
unfoldable pub hr_life : (callback : Bool) → (after period : ℕ) → M ℕ
hr_life callback after period = do
  r ← hr_new callback
  elim r [
    | err e ↦ pure null
    | ok t ↦ (do hr_start t after period; hr_stop t; hr_drop t; pure t.raw)
  ]

unfoldable pub thread_hr_life : (is_sync : Bool) → M Bool
thread_hr_life is_sync = do
  r ← thread_hr_new is_sync
  elim r [ err e ↦ pure false | ok t ↦ (do thread_hr_drop t; pure true) ]

-- Where the executive has memory for timers: an `HRTimer` that is dropped deletes its timer once, but
-- never drops the box of its callback; a `ThreadHRTimer` that is dropped never deletes its timer, and
-- frees a pool block where none was allocated.
pub hr_lives-leak :
    (callback is_sync : Bool) (after period : ℕ) (k : Kernel) (l : Log)
    → TimerRoom k
    → Returns (hr_life callback after period k l) (λ t l'.
      (total makes_timer l' ≡ total makes_timer l + 1)
      × (total (deletes_timer t) l' ≡ total (deletes_timer t) l + 1)
      × (total boxes l' ≡ total boxes l + one_if callback)
      × (total unboxes l' ≡ total unboxes l))
      × Returns (thread_hr_life is_sync k l) (λ made l'.
        (made ≡ true)
        × (total makes_timer l' ≡ total makes_timer l + 1)
        × ((t : ℕ) → total (deletes_timer t) l' ≡ total (deletes_timer t) l)
        × (total allocates l' ≡ total allocates l)
        × (total frees l' ≡ total frees l + 1))
unfolding hr_life thread_hr_life hr_new hr_start hr_stop hr_drop thread_hr_new thread_hr_drop
    error_new
hr_lives-leak true is_sync after period k l room = (grind (arith, room), grind (arith, room))
hr_lives-leak false is_sync after period k l room = (grind (arith, room), grind (arith, room))
