-- ===== src/Dpc/Boxes.antt =====
-- The boxes and blocks of dpc.rs across the life of a DPC.
use ksync.Base.{ℕ, zero, suc, ◌+◌, ◌≡◌, ◌≢◌, true, false, ltb, leb, ◌&&◌, null, arith}
use ksync.Kernel.{Kernel, Log, M, pure, Returns, ◌>>◌}
use ksync.Kernel.Abi
use ksync.Kernel.Ledger.{
  total, boxes, unboxes, live, sound, context_of, last_queued, queues, targets, one_if,
}
use ksync.NtStatus.{new}
use ksync.Utils.{non_paged_pool_nx}
use ksync.Mutex.Lifecycle.{Balance}
use ksync.Dpc.{run_once, deferred_routine_stub, deferred_routine_once_stub}

-- The kernel runs the routine of a `Dpc` as often as it was queued, each time with the context of its
-- initialisation.
unfoldable pub fires : ℕ → (context : ℕ) → M (Unit {0})
unfolding deferred_routine_stub
fires zero context = pure tt
fires (suc n) context = deferred_routine_stub context >> fires n context

fires-stays :
    (n context : ℕ) (k : Kernel) (l : Log)
    → sound l ≡ false
    → Returns (fires n context k l) (λ _ l'. sound l' ≡ false)
unfolding fires
fires-stays zero context k l bad = bad
fires-stays (suc n) context k l bad = fires-stays n context k _ (ground arith)

-- From a sound state in which the box of the closure is live, one firing of a `Dpc` is sound, and
-- any larger number of firings is not: the first dropped the box.
pub fires_twice-unsound :
    (n context : ℕ) (k : Kernel) (l : Log)
    → live context l ≡ true
    → sound l ≡ true
    → Returns (fires 1 context k l) (λ _ l'. sound l' ≡ true)
      × Returns (fires (suc (suc n)) context k l) (λ _ l'. sound l' ≡ false)
unfolding fires
fires_twice-unsound n context k l alive fine =
    (ground arith, fires-stays n context k _ (ground arith))

-- The pool has memory.
abbrev pub Room : Kernel → Type 0
Room k = (l : Log) (n t : ℕ) → (k l (Abi.ex_allocate_pool non_paged_pool_nx n t)).ret ≢ null

-- With memory in the pool, when the kernel has run the routine of the DPC that `run_once` queued,
-- the one block and the one box that were made are returned, and no box was misused.
pub run_once-clean :
    (size : ℕ) (k : Kernel) (l : Log)
    → Room k
    → Returns (run_once size k l) λ _ l'.
      Returns
        (deferred_routine_once_stub (last_queued l') (context_of (last_queued l') l') k l')
        λ _ l''.
          Balance 1 1 l l''
          × (total boxes l'' ≡ total boxes l + 1)
          × (total unboxes l'' ≡ total unboxes l + 1)
unfolding run_once deferred_routine_once_stub new
run_once-clean size k l room = grind (arith, room)

-- From `l` to `l'` the core `c` is the target of one DPC if it lies in the range, and of none
-- otherwise, and as many DPCs are queued as the range is long.
pub record Covers (c from to : ℕ) (l l' : Log) : Type 0 where
  pub queued : total queues l' + from ≡ total queues l + to
  pub targeted : total (targets c) l' ≡ total (targets c) l + one_if (leb from c && ltb c to)
