-- ===== src/Errors/Allocation.antt =====
-- The constructors that obtain one block from the pool, or one IO work item, and report
-- STATUS_INSUFFICIENT_RESOURCES when there is none: event.rs, sema.rs, dpc.rs, timer.rs and
-- workitem.rs.
use ksync.Kernel.Abi.{Log, Kernel}
use ksync.Base.{ℕ, ◌+◌, ◌≡◌, ◌≢◌, ◌==◌, ◌||◌, not, true, Bool, ◌∷◌, null, arith, Result, ok, err}
use ksync.Kernel.{Kernel, Log, Returns}
use ksync.Kernel.Abi
use ksync.Kernel.Ledger.{
  total, allocates, frees, boxes, unboxes, makes_item, frees_item, sound, one_if,
}
use ksync.NtStatus.{NtError, new}
use ksync.Utils.{non_paged_pool_nx}
use ksync.Mutex.Locked.{status_insufficient_resources}
use ksync.Sync.{EventProperty, new_event, sema_new, event_tag, sema_tag}
use ksync.Timer.{timer_tag, timer_kind}
use ksync.Dpc.{dpc_tag}
use ksync.Dpc
use ksync.Timer
use ksync.WorkItem

-- From `l` to `l'` so many pool blocks, IO work items and boxes are obtained and kept, and no box is
-- misused.
pub record Keeps (blocks items kept : ℕ) (l l' : Log) : Type 0 where
  pub pool : total allocates l' + total frees l ≡ total allocates l + total frees l' + blocks
  pub work :
      total makes_item l' + total frees_item l ≡ total makes_item l + total frees_item l' + items
  pub boxed : total boxes l' + total unboxes l ≡ total boxes l + total unboxes l' + kept
  pub unharmed : sound l' ≡ sound l

-- A constructor that asks for memory once, and is answered `there`, returns a value at that address,
-- with so many blocks, items and boxes behind it; or there is no memory, and it returns
-- STATUS_INSUFFICIENT_RESOURCES and keeps nothing.
abbrev pub Built :
    {A : Type 0} → (A → ℕ) → (there blocks items kept : ℕ) → Log → Result A NtError → Log → Type 0
Built address there blocks items kept l (ok a) l' =
    (address a ≡ there) × (there ≢ null) × Keeps blocks items kept l l'
Built address there blocks items kept l (err e) l' =
    (e.code ≡ status_insufficient_resources) × (there ≡ null) × Keeps 0 0 0 l l'

-- The answer of the pool to a first request for `size` bytes.
abbrev pub pool : Kernel → Log → (size tag : ℕ) → ℕ
pool k l size tag = (k l (Abi.ex_allocate_pool non_paged_pool_nx size tag)).ret

-- The log of `Timer::new` when it asks for its second block, and the answer to that.
abbrev after_timer : Kernel → Log → (size : ℕ) → Bool → Log
after_timer k l size synch =
    let ask : Abi.Call = Abi.ex_allocate_pool non_paged_pool_nx size timer_tag in
    let l1 : Log = Abi.event ask (k l ask) ∷ l in
    let clear : Abi.Call = Abi.write_zero (k l ask).ret size in
    let l2 : Log = Abi.event clear (k l1 clear) ∷ l1 in
    let set_up : Abi.Call = Abi.ke_initialize_timer (k l ask).ret (timer_kind synch) in
    Abi.event set_up (k l2 set_up) ∷ l2

abbrev pub second_pool : Kernel → Log → (size dpc_size : ℕ) → Bool → ℕ
second_pool k l size dpc_size synch = pool k (after_timer k l size synch) dpc_size dpc_tag

-- What `Timer::new` did: it asks for two blocks, and is answered `there` and `second`.
abbrev pub BuiltTimer : (there second : ℕ) → Log → Result Timer.Timer NtError → Log → Type 0
BuiltTimer there second l (ok t) l' =
    (t.inner ≡ there) × (t.dpc.raw ≡ second) × (there ≢ null) × (second ≢ null) × Keeps 2 0 1 l l'
BuiltTimer there second l (err e) l' =
    (e.code ≡ status_insufficient_resources)
    × (((there == null) || (second == null)) ≡ true)
    × Keeps (one_if (not (there == null))) 0 0 l l'

-- Over any kernel, none of the eight constructors panics or misuses a box. The seven that ask for
-- memory once return a value at the address that the kernel answered, with one block (or one work
-- item) kept, and the one box of the closure if they take one, or, exactly when the kernel answered
-- null, STATUS_INSUFFICIENT_RESOURCES with nothing kept. `Timer::new` asks for two blocks. Exactly when
-- the kernel answers both requests it returns the timer at the two addresses, with two blocks and one
-- box kept; otherwise STATUS_INSUFFICIENT_RESOURCES, and then it keeps the timer's block exactly when
-- there was memory for that one, and so none for the DPC.
pub constructors-Built :
    (size dpc_size count limit device : ℕ) (prop : EventProperty) (synch : Bool) (k : Kernel)
    (l : Log)
    → Returns (new_event size prop k l) (Built (λ e. e.raw) (pool k l size event_tag) 1 0 0 l)
      × Returns
          (sema_new size count limit k l)
          (Built (λ s. s.raw) (pool k l size sema_tag) 1 0 0 l)
      × Returns (Dpc.new size k l) (Built (λ d. d.raw) (pool k l size dpc_tag) 1 0 1 l)
      × Returns (Dpc.threaded_new size k l) (Built (λ d. d.raw) (pool k l size dpc_tag) 1 0 1 l)
      × Returns
          (Timer.thread_new size synch k l)
          (Built (λ t. t.raw) (pool k l size timer_tag) 1 0 0 l)
      × Returns
          (WorkItem.new device k l)
          (Built (λ w. w.inner) (k l (Abi.io_allocate_work_item device)).ret 0 1 1 l)
      × Returns (WorkItem.post device k l) (
          Built
            (λ p. p.0)
            (k (Abi.event Abi.box_new (k l Abi.box_new) ∷ l) (Abi.io_allocate_work_item device)).ret
            0
            1
            1
            l)
      × Returns
          (Timer.new size dpc_size synch k l)
          (BuiltTimer (pool k l size timer_tag) (second_pool k l size dpc_size synch) l)
unfolding new_event sema_new Dpc.new Dpc.threaded_new Timer.thread_new WorkItem.new WorkItem.post
    Timer.new new
constructors-Built size dpc_size count limit device prop synch k l = (
  ground arith,
  ground arith,
  ground arith,
  ground arith,
  ground arith,
  ground arith,
  ground arith,
  ground arith,
)
