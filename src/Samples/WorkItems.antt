-- ===== src/Samples/WorkItems.antt =====
-- test.rs: `test_workitem`, with the `Device` that it makes for itself. The main thread and the system
-- thread that runs the work item take turns in any order. The ten closures that the main thread posts
-- at the end share nothing with either; Tasks has how they run. The theorems are in Orders and Whole.
pub mod Orders
pub mod Whole
use ksync.Base.{
  ℕ, zero, suc, ◌==◌, ◌≡◌, ◌≢◌, ◌+◌, ◌-◌, Bool, true, false, not, ◌&&◌, ◌||◌, if◌then◌else◌, List,
  [], ◌∷◌, null, Option, none, some, Result, ok, err, arith,
}
use ksync.Kernel.{done, Kernel, Log, M, pure, call, emit, panic, question, ◌>>=◌, ◌>>◌}
use ksync.Kernel.Abi.{invoke, read_captured, box_free, io_create_device, io_delete_device}
use ksync.Kernel.Ledger.{one_if, total, frees, live, signaled, sound}
use ksync.NtStatus.{NtError, cvt}
use ksync.Object.Wait.{wait}
use ksync.Sync.{Event, event_set, event_drop, new_event, property_new}
use ksync.Once.Cells
use ksync.Once.Cells.{State, uninit, init, poisoned}
use ksync.WorkItem
use ksync.WorkItem.{WorkItem}

-- `FILE_DEVICE_UNKNOWN` and `FILE_DEVICE_SECURE_OPEN`
abbrev pub file_device_unknown : ℕ
file_device_unknown = 0x22

abbrev pub file_device_secure_open : ℕ
file_device_secure_open = 0x100

-- `Device::new`, for the driver in the cell `DRIVER`, and its `Drop`.
unfoldable pub device_new : (driver : Option ℕ) → M (Result ℕ NtError)
unfolding Cells.get cvt
device_new driver = elim (Cells.get driver) [
  | none ↦ panic
  | some d ↦ (do
    r ← call (io_create_device d 0 null file_device_unknown file_device_secure_open)
    q ← cvt r.ret
    question q (λ _. pure (ok r.out)))
]

unfoldable pub device_drop : ℕ → M (Unit {0})
device_drop self = emit (io_delete_device self)

-- `LazyCell::force(&DEVICE)`, where the closure is `|| Device::new().unwrap()`.
unfoldable pub force_device : (driver : Option ℕ) → State ℕ (Unit {0}) → M (State ℕ (Unit {0}))
unfolding device_new
force_device driver (init device) = pure (init device)
force_device driver poisoned = panic
force_device driver (uninit f) = do
  r ← device_new driver
  elim r [ err x ↦ panic | ok device ↦ pure (init device) ]

-- `DEVICE.get().unwrap().get()`
unfoldable pub device_get : State ℕ (Unit {0}) → M ℕ
unfolding Cells.lazy_get
device_get cell = elim (Cells.lazy_get (λ (f : Unit {0}). null) cell) [
  | none ↦ panic
  | some d ↦ pure d
]

-- Where the main thread is: before the end of the block that holds the work item, before the wait,
-- in the loop with so many posts to go, after which it drops its `Arc` of the event, or at the end.
pub data Main : Type 0 where
  dropping : Main
  waiting : Main
  posting : (to_go : ℕ) → Main
  left : Main

-- Where the system thread is: before the call of the closure, in the closure before `event.set()`,
-- before the drop of the context, or at the end.
pub data Worker : Type 0 where
  calling : Worker
  setting : Worker
  freeing : Worker
  over : Worker

-- What the threads share: the event, of which the main thread and the closure have an `Arc`, the work
-- item, and the context that `activate` made.
pub record Shared : Type 0 where
  pub device : ℕ
  pub event : Event
  pub item : WorkItem
  pub context : ℕ

pub record Threads : Type 0 where
  pub arcs : ℕ
  pub main : Main
  pub worker : Worker

-- Whether a wait for the event would return now.
abbrev pub is_set : Event → M Bool
is_set event k l = done (signaled event.raw l) l

unfoldable pub release : Event → (arcs : ℕ) → M (Unit {0})
unfolding event_drop
release event arcs = if arcs == 1 then event_drop event else pure tt

-- The closure goes with the work item, and its `Arc` with the closure. A wait for an event that is not
-- set goes on. The results of the posts are dropped.
unfoldable pub main_turn : Shared → Threads → Main → M Threads
unfolding WorkItem.drop WorkItem.post wait release
main_turn e s dropping = do
  WorkItem.drop e.item
  release e.event s.arcs
  pure (record s { arcs = s.arcs - 1; main = waiting })
main_turn e s waiting = do
  ready ← is_set e.event
  if ready then (do w ← wait e.event.raw false; pure (record s { main = posting 10 })) else pure s
main_turn e s (posting (suc n)) = do
  r ← WorkItem.post e.device
  pure (record s { main = posting n })
main_turn e s (posting zero) = do
  release e.event s.arcs
  pure (record s { arcs = s.arcs - 1; main = left })
main_turn e s left = pure s

-- `worker_routine_stub` of workitem.rs, with the two parts of the closure in turns of their own.
unfoldable pub worker_turn : Shared → Threads → Worker → M Threads
unfolding event_set
worker_turn e s calling = do emit (invoke e.item.callback); pure (record s { worker = setting })
worker_turn e s setting = do
  emit (read_captured e.item.callback)
  event_set e.event
  pure (record s { worker = freeing })
worker_turn e s freeing = do emit (box_free e.context); pure (record s { worker = over })
worker_turn e s over = pure s

-- The next turn is the system thread's or the main thread's.
unfoldable pub turn : Shared → Threads → Bool → M Threads
unfolding main_turn worker_turn
turn e s true = worker_turn e s s.worker
turn e s false = main_turn e s s.main

unfoldable pub turns : Shared → Threads → List Bool → M Threads
unfolding turn
turns e s [] = pure s
turns e s (who ∷ order) = do s' ← turn e s who; turns e s' order

abbrev pub at_first : Threads
at_first = record { arcs = 2; main = dropping; worker = calling }

-- The test from the event up to `activate`.
unfoldable pub prepared : (size : ℕ) → State ℕ (Unit {0}) → M Shared
unfolding new_event property_new device_get WorkItem.new WorkItem.activate
prepared size cell = do
  r ← new_event size property_new
  elim r [
    | err x ↦ panic
    | ok event ↦ (do
      device ← device_get cell
      i ← WorkItem.new device
      elim i [
        | err x ↦ panic
        | ok item ↦ (do
          context ← WorkItem.activate item
          pure (record { device = device; event = event; item = item; context = context }))
      ])
  ]

-- The test on what `DRIVER` and `DEVICE` hold.
unfoldable pub test_workitem :
    (size : ℕ) → (driver : Option ℕ) → State ℕ (Unit {0}) → (order : List Bool) → M Threads
unfolding force_device
test_workitem size driver cell order = do
  cell' ← force_device driver cell
  e ← prepared size cell'
  turns e at_first order
