-- ===== src/Mutex/Levels.antt =====
-- The interrupt level across `lock` and `unlock` of the spin locks of mutex.rs.
use ksync.Base.{ℕ, ◌≡◌, ltb, if◌then◌else◌, arith}
use ksync.Kernel.{Kernel, Log, Returns, ◌>>=◌, ◌>>◌}
use ksync.Kernel.Abi.{ke_get_current_irql}
use ksync.Kernel.Ledger.{irql, dispatch_level}
use ksync.Mutex.Spin.{
  SpinLockInner, spin_lock, spin_unlock, QueuedSpinMutex, queued_lock, queued_unlock,
}

-- The kernel reports the level that its routines leave, from level `base` at the start on.
pub record Reports (base : ℕ) (k : Kernel) : Type 0 where
  pub current : (l : Log) → (k l ke_get_current_irql).ret ≡ irql base l

-- Over a kernel that reports the level, a spin lock that is taken and released leaves the level at
-- DISPATCH_LEVEL if it was below, and unchanged otherwise: the level before is not restored.
pub spin_cycle-level :
    (base : ℕ) (k : Kernel)
    → Reports base k
    → (s : SpinLockInner) (l : Log)
    → Returns ((do s' ← spin_lock s; spin_unlock s') k l) λ _ l'.
      irql base l' ≡ (if ltb (irql base l) dispatch_level then dispatch_level else irql base l)
unfolding spin_lock spin_unlock
spin_cycle-level base k reports s l = grind (arith, reports.current)

-- Over a kernel that reports the level, an in-stack queued spin lock that is taken and released leaves
-- the level at DISPATCH_LEVEL if it was below, and unchanged otherwise.
pub queued_cycle-level :
    (base : ℕ) (k : Kernel)
    → Reports base k
    → (s : QueuedSpinMutex) (handle : ℕ) (l : Log)
    → Returns ((queued_lock s handle >> queued_unlock s handle) k l) λ _ l'.
      irql base l' ≡ (if ltb (irql base l) dispatch_level then dispatch_level else irql base l)
unfolding queued_lock queued_unlock
queued_cycle-level base k reports s handle l = grind (arith, reports.current)
