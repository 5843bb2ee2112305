-- ===== src/Timer/Armed.antt =====
-- The blocks of a `Timer` of timer.rs while the kernel holds its timer.
use ksync.Base.{ℕ, ◌==◌, ◌≡◌, ◌≢◌, ◌<◌, Bool, true, false, not, ◌&&◌, if◌then◌else◌, [], ◌∷◌, arith}
use ksync.Kernel.{Kernel, Log, M, Returns, ◌>>◌}
use ksync.Kernel.Abi.{Call, ke_set_timer, ke_cancel_timer, ex_free_pool}
use ksync.Timer
use ksync.Timer.{start, stop, drop, period_millis, due_from_millis}
use ksync.Dpc

-- Whether the timer at `p` is in the kernel's queue and stays there: `KeSetTimerEx` puts it in, a
-- timer with a period is put in again each time it expires, and `KeCancelTimer` takes it out. A timer
-- without a period leaves the queue at a time that only the kernel knows, and is not counted.
abbrev armed_after : ℕ → Bool → Call → Bool
armed_after p b (ke_set_timer q due period dpc) = if q == p then not (period == 0) else b
armed_after p b (ke_cancel_timer q) = if q == p then false else b
armed_after p b _ = b

abbrev pub armed : ℕ → Log → Bool
armed p [] = false
armed p (e ∷ l) = armed_after p (armed p l) e.what

-- No block was returned to the pool with a timer in it that is in the queue.
abbrev safe_call : Log → Call → Bool
safe_call l (ex_free_pool p tag) = not (armed p l)
safe_call l _ = true

abbrev pub frees_safely : Log → Bool
frees_safely [] = true
frees_safely (e ∷ l) = safe_call l e.what && frees_safely l

-- A timer is started, stopped if `stopped`, and dropped.
unfoldable pub started_and_dropped :
    (stopped : Bool) → Timer.Timer → (after period : ℕ) → M (Unit {0})
started_and_dropped true self after period = do start self after period; stop self; drop self
started_and_dropped false self after period = do start self after period; drop self

-- For a timer whose DPC lies in another block, with no timer of the queue in that block, and a period
-- whose 32-bit count of milliseconds is not 0, after a log in which every block was returned safely:
-- if the timer is started, stopped and dropped, its blocks are returned safely; if it is started and
-- dropped, its block is returned while the kernel's queue holds the timer in it.
pub started_and_dropped-safely :
    (stopped : Bool) (self : Timer.Timer) (after period : ℕ) (k : Kernel) (l : Log)
    → frees_safely l ≡ true
    → self.dpc.raw ≢ self.inner
    → armed self.dpc.raw l ≡ false
    → period_millis period ≢ 0
    → Returns
        (started_and_dropped stopped self after period k l)
        (λ u l'. frees_safely l' ≡ stopped)
unfolding started_and_dropped start stop drop Dpc.drop
started_and_dropped-safely true self after period k l fine apart idle periodic = ground arith
started_and_dropped-safely false self after period k l fine apart idle periodic = ground arith

-- A period below a millisecond is passed on as none, which makes the timer fire only once.
pub period_millis-short : (nanos : ℕ) → nanos < 1_000_000 → period_millis nanos ≡ 0
unfolding period_millis
period_millis-short nanos h = omega arith
