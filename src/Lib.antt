-- ===== src/Lib.antt =====
-- A model of the crate ksync, safe wrappers of Windows kernel primitives, with the theorems that say
-- what its parts promise and where they break the promise.
--
-- The crate calls kernel routines and the global allocator, and hands out guards, handles and
-- callbacks whose drop gives back what was acquired. The model follows that division:
--
-- - Kernel (Kernel/Abi, Kernel/Ledger): the border. `Call` has a constructor for each routine outside
--   the crate, and a `Kernel`, a parameter, is any function from the history of calls to the reply to
--   the next one. Code is a function `M A = Kernel → Log → Run A`: it appends to the log of calls and
--   ends with a value, a panic, or undefined behaviour. Kernel/Ledger counts, over a log, references,
--   handles, blocks, boxes and holds on locks, and Kernel/Ledger/States follows the interrupt level,
--   events, semaphores and contexts, by the documented effect of the routines. What the theorems rely
--   on of a kernel's replies are named hypotheses. Kernel/Sequences compares sequences of operations
--   with a reference.
-- - NtStatus: src/ntstatus.rs. Utils and Text: src/utils.rs (`ex_allocate_pool_zero`,
--   `unicode_from_str`, `utf16_from_str`).
-- - Mutex: src/mutex.rs. The traits `Mutex` and `QueuedMutex` are records of operations; Mutex/Kinds
--   and Mutex/Spin are their implementations, Mutex/Locked is `Locked` and `MutexGuard`, Mutex/Queued
--   is `StackQueueLocked`. Mutex/Holds has the laws that a kind of lock meets and what `Locked` makes
--   of them, Mutex/Sequences sequences of operations, Mutex/Attempts `try_lock`, Mutex/Levels the
--   interrupt level, Mutex/Lifecycle memory, Mutex/Shared shared holds, Mutex/Handles sections with
--   a queue handle.
--   Mutex/Threads is `Locked` under any interleaving of any number of threads: a thread's place in
--   `lock`, the guard and its drop is a `Place`, `Step` its next access of the lock or of the content,
--   and the lock object is a parameter that meets `Exclusive`. A thread that releases a lock which it
--   does not hold stops at `misused`. Mutex/Threads/Invariant, Refine, Progress and Unlocked have
--   the theorems; Mutex/Threads/Alone sets the steps beside the code of Mutex/Locked; and
--   Mutex/Threads/Counter is the shared counter of src/test.rs.
-- - Object: src/kobject.rs and src/handle.rs, with waits in Object/Wait. Thread: src/thread.rs, with
--   the books of `spawn` and `join` in Thread/Join, and in Thread/Orders (Settles, Whole) a new thread
--   and the owner of its handle, whose turns may come in any order. Raw: the traits of src/raw.rs with
--   their instances, and src/constants.rs.
-- - Once: src/once.rs, and the cells of src/lazy.rs. Once/Lock is `OnceLock` and Once/Lazy `LazyLock`:
--   a thread's place in an operation is a `Pc`, `step` is its next access of shared memory, and
--   `Reach` the states that any number of threads reach in any order. Once/Invariant, Once/Race,
--   Once/LazyRace, Once/Progress, Once/LazyProgress, Once/Refine, Once/LazyRefine, Once/Ownership and
--   Once/Alone have the theorems. Once/Cells is `LazyCell` and `OnceCell`,
--   with sequences of operations in Once/Cells/Sequences; Once/Cells/Threads is a `LazyCell` that
--   threads share, by the rule that its documentation gives (Careful, Returns) and without it.
-- - Sync: src/event.rs, src/sema.rs and src/lock.rs, with sequences of operations in Sync/Sequences.
--   Dpc: src/dpc.rs. Timer: src/timer.rs, with Timer/Times on times, Timer/Armed on
--   the kernel's queue, Timer/Delays and Timer/HighResolution on memory. WorkItem: src/workitem.rs.
-- - Wdm: src/wdm.rs. Wdm/Device is `OwnedDevice`, Wdm/Table is `Driver`, Wdm/Named the deprecated
--   constructors, Wdm/Request the dispatch routine and the IRP helpers of src/utils.rs, Wdm/Reference
--   is `DeviceObject`. Wdm/Creation, Wdm/Life and Wdm/Whole (Birth, ByName) follow a device from its
--   creation to its drop, and Wdm/Fleet a driver with its devices; Wdm/Accepted has that a creation
--   succeeds where the kernel refuses nothing.
--   Wdm/Delivery is the way of a request from the driver's table to the handler; the IO manager and
--   other routines are parameters there.
-- - Errors: how constructors fail for want of memory (Errors/Allocation), and the codes of errors
--   (Errors/Codes). Utils/ControlCode is `ctl_code`, over the binary digits of Utils/Digits, and
--   Utils/Attributes the object attributes.
-- - Tasks: the closures that run once, from `Timer::delay_run`, `HRTimer::delay_run`,
--   `WorkItem::post`, `run_once` and `spawn`. A program is a list of turns, in each of which a task is
--   started or the kernel runs one that is pending; Tasks/Accounts has what pending tasks own, and
--   Tasks/Orders the theorem.
-- - Samples: src/test.rs. Samples/Signals has `test_semaphore` and `test_event` as threads, a step
--   relation over a kernel object that is a parameter, with Samples/Signals/Semaphore and
--   Samples/Signals/Event the two objects. Samples/Timers (Orders, Whole) has the two threads of
--   `test_timer` and `test_hr_timer`, and Samples/WorkItems (Orders, Whole) those of `test_workitem`,
--   whose turns may come in any order. Samples/Counters is the five tests that count under a lock,
--   and Samples/Objects `test_kobject`.
-- - Tests: the theorems at concrete inputs.
--
-- Functions keep their names from the source. A function that two types share carries the type's
-- (`hr_new` is `HRTimer::new`, `thread_hr_new` is `ThreadHRTimer::new`, `event_new` is `Event::new`);
-- `drop` is the `Drop` of a type followed by the drop of its fields. A callback is a box: `invoke`
-- calls it and `box_free` drops it. Times are in nanoseconds, and 64-bit signed numbers are bit
-- patterns with the wrap-around written out; a status code is its 32-bit pattern.
--
-- The loops over the cores in `run_once_per_core` and over the major functions in
-- `setup_dispatch_routines` recur on the rounds left, and the loop of `Once::wait` is a step that a
-- schedule may repeat. Once/Alone gives an operation of a thread that is alone six steps, which are
-- enough for it to return; the proof that the shared counter ends recurs on the turns that its threads
-- still need.
--
-- A count that is given to a semaphore is at least 0: `KeReleaseSemaphore` raises an exception for any
-- other. `*guard += 1` in src/test.rs wraps, as with overflow checks off; with them the thread whose
-- sum overflows would panic.
--
-- Not modelled: memory orderings weaker than sequential consistency; closures that panic, including
-- the poisoned state that they leave (Cargo.toml builds the crate with `panic = "abort"`); Display
-- and Debug; what the kernel does when a lock is released by a thread that does not hold it; the
-- pause instruction in src/thread.rs; printing and sleeping in src/test.rs, and its functions that
-- call one operation and print.
pub mod Base
pub mod Kernel
pub mod NtStatus
pub mod Utils
pub mod Mutex
pub mod Object
pub mod Thread
pub mod Once
pub mod Sync
pub mod Dpc
pub mod Timer
pub mod WorkItem
pub mod Text
pub mod Wdm
pub mod Raw
pub mod Errors
pub mod Tasks
pub mod Samples
pub mod Tests
