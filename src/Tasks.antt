-- ===== src/Tasks.antt =====
-- The closures that run once, whichever way they are handed to the crate: `Timer::delay_run` and
-- `HRTimer::delay_run` of timer.rs, `WorkItem::post` of workitem.rs, `run_once` of dpc.rs and
-- `spawn` of thread.rs. The
-- kernel runs what is pending when it likes, so a program is a sequence of turns, in each of which
-- either the crate is called or the routine of a pending task runs.
pub mod Accounts
pub mod Orders
use ksync.Base.{
  ℕ, zero, suc, ◌==◌, Bool, true, false, Option, none, some, List, [], ◌∷◌, ◌++◌, ok, err,
}
use ksync.Kernel.{Log, M, pure, ◌>>=◌, ◌>>◌, done}
use ksync.Kernel.Ledger.{total, queues, context_of, last_queued, thread_context_of}
use ksync.Timer.{OneShot, delay_run, oneshot_dpc_routine, hr_delay_run, hr_timer_routine_once_stub}
use ksync.WorkItem.{post, worker_routine_oneshot_stub}
use ksync.Thread
use ksync.Thread.{spawn, start_routine_stub}
use ksync.Dpc.{run_once, deferred_routine_once_stub}

pub data Task : Type 0 where
  delay : (after : ℕ) → Task
  hr_delay : (after : ℕ) → Task
  work : (device : ℕ) → Task
  dpc : (size : ℕ) → Task
  detached : Task  -- `spawn`, with the handle dropped at once

-- What the kernel holds of a task until it has run.
pub data Pending : Type 0 where
  delayed : OneShot → Pending
  hr_delayed : (timer callback : ℕ) → Pending
  posted : (item callback : ℕ) → Pending
  queued : (block context : ℕ) → Pending
  running : (context : ℕ) → Pending

-- The DPC that was queued last, unless nothing was queued: its block, and the context of its
-- initialisation.
abbrev pub queued_last : (unchanged : Bool) → Log → List Pending
queued_last true l = []
queued_last false l = queued (last_queued l) (context_of (last_queued l) l) ∷ []

abbrev pub newly_queued : (before : ℕ) → M (List Pending)
newly_queued before k l = done (queued_last (total queues l == before) l) l

-- The context that the kernel keeps for the thread behind a handle.
abbrev pub started_with : (handle : ℕ) → M ℕ
started_with handle k l = done (thread_context_of handle l) l

abbrev pub queued_so_far : M ℕ
queued_so_far k l = done (total queues l) l

-- A task that cannot be started leaves nothing pending.
unfoldable pub begin : Task → M (List Pending)
begin (delay after) = do s ← delay_run after; pure (delayed s ∷ [])
begin (hr_delay after) = do r ← hr_delay_run after; pure (hr_delayed r.0 r.1 ∷ [])
begin (work device) = do
  r ← post device
  elim r [ err e ↦ pure [] | ok (item, callback) ↦ pure (posted item callback ∷ []) ]
begin (dpc size) = do before ← queued_so_far; run_once size; newly_queued before
begin detached = do
  r ← spawn
  elim r [
    | err e ↦ pure []
    | ok self ↦ (do context ← started_with self.raw; Thread.drop self; pure (running context ∷ []))
  ]

-- The kernel runs the routine of a task.
unfoldable pub complete : Pending → M (Unit {0})
complete (delayed s) = oneshot_dpc_routine s
complete (hr_delayed timer callback) = hr_timer_routine_once_stub timer callback
complete (posted item callback) = worker_routine_oneshot_stub callback item
complete (queued block context) = deferred_routine_once_stub block context
complete (running context) = start_routine_stub context

-- The pending task at a place, and the others.
unfoldable pub pick : ℕ → List Pending → Option (Pending × List Pending)
pick i [] = none
pick zero (p ∷ ps) = some (p, ps)
pick (suc i) (p ∷ ps) = elim (pick i ps) [ none ↦ none | some (q, rest) ↦ some (q, p ∷ rest) ]

pub data Turn : Type 0 where
  start : Task → Turn
  finish : ℕ → Turn

abbrev pub complete_picked : Option (Pending × List Pending) → List Pending → M (List Pending)
complete_picked none ps = pure ps
complete_picked (some (p, rest)) ps = do complete p; pure rest

-- A turn at a place where nothing is pending does nothing.
unfoldable pub turn : Turn → List Pending → M (List Pending)
turn (start t) ps = do new ← begin t; pure (new ++ ps)
turn (finish i) ps = complete_picked (pick i ps) ps

unfoldable pub turns : List Turn → List Pending → M (List Pending)
turns [] ps = pure ps
turns (t ∷ ts) ps = do ps' ← turn t ps; turns ts ps'
