-- ===== src/Samples/WorkItems/Whole.antt =====
-- The whole of `test_workitem` of test.rs, where there is memory.
use ksync.Base.{ℕ, ◌≡◌, ◌≢◌, true, null, Option, none, some}
use ksync.Kernel.{Kernel, Log}
use ksync.Kernel.Abi.{ex_allocate_pool, io_allocate_work_item, io_create_device}
use ksync.Kernel.Ledger.{total, frees, frees_at, allocates_at, sound}
use ksync.Once.Cells.{State, uninit, init, poisoned}
use ksync.Timer.Delays.{Fresh}

-- There is memory for a pool block, a work item and a device, and a new box is none that is in use.
pub record Memory (k : Kernel) : Type 0 where
  pub block : (l : Log) (p size tag : ℕ) → (k l (ex_allocate_pool p size tag)).ret ≢ null
  pub work : (l : Log) (device : ℕ) → (k l (io_allocate_work_item device)).ret ≢ null
  pub device : (l : Log) (d s n t c : ℕ) → (k l (io_create_device d s n t c)).ret ≡ 0
  pub fresh : Fresh k

-- The cell `DEVICE` is initialised, or it is fresh and `DRIVER` is set.
abbrev pub Ready : Option ℕ → State ℕ (Unit {0}) → Type 0
Ready driver (init v) = Unit
Ready (some d) (uninit f) = Unit
Ready none (uninit f) = ⊥
Ready driver poisoned = ⊥

abbrev IsInit : State ℕ (Unit {0}) → Type 0
IsInit (init v) = Unit
IsInit _ = ⊥

abbrev Forced : Log → State ℕ (Unit {0}) → Log → Type 0
Forced l cell l' =
    IsInit cell
    × (sound l' ≡ true)
    × (total frees l' ≡ total frees l)
    × ((x : ℕ)
        → (total (frees_at x) l' ≡ total (frees_at x) l)
          × (total (allocates_at x) l' ≡ total (allocates_at x) l))
