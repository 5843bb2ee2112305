-- ===== src/Tests/Timers.antt =====
-- Timers of test.rs, over a pool that hands out ever higher addresses.
use ksync.Base.{ℕ, suc, ◌≡◌, Bool, true, false, List, [], ◌∷◌, refl}
use ksync.Kernel.{Kernel, Log, Returns}
use ksync.Kernel.Abi.{Call, Reply, ex_allocate_pool}
use ksync.Kernel.Ledger.{total}
use ksync.Dpc
use ksync.Timer
use ksync.Timer.Armed.{frees_safely}
use ksync.Samples.Timers
use ksync.Samples.Timers.Orders.{finished, is_gone}
use ksync.Samples.Timers.Whole
use ksync.Tests.Kernels.{answer}

-- Above every address that a block was ever given.
abbrev block_sizes : Call → Reply → ℕ
block_sizes (ex_allocate_pool p size tag) r = r.ret
block_sizes _ r = 0

unfoldable fresh_block : Log → ℕ
fresh_block l = suc (total block_sizes l)

abbrev pool_kernel : Kernel
pool_kernel l (ex_allocate_pool p size tag) = answer (fresh_block l)
pool_kernel l _ = answer 1

-- The stopper stops, and then the starter starts; both are gone at the end.
abbrev late_start : List Bool
late_start = true ∷ true ∷ false ∷ []

late_start-finishes :
    Returns
      (Timers.test_timer 64 64 (false ∷ late_start) pool_kernel [])
      (λ s l'. (finished s ≡ true) × (frees_safely l' ≡ false))
unfolding Timers.test_timer Timers.turns Timers.turn Timers.starter_turn Timers.stopper_turn
    Timers.release finished is_gone Timer.new Timer.start Timer.stop Timer.drop Dpc.drop Dpc.new
    Timer.period_millis fresh_block
late_start-finishes = (refl, refl)
