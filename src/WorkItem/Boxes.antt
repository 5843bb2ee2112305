-- ===== src/WorkItem/Boxes.antt =====
-- Boxes and work items of workitem.rs.
use ksync.Base.{◌&&◌, not, ℕ, ◌+◌, ◌≡◌, ◌∷◌, Bool, true, false, arith, ok, err}
use ksync.Kernel.{Kernel, Log, M, pure, Returns, ◌>>=◌, ◌>>◌}
use ksync.Kernel.Abi.{event, box_new, io_allocate_work_item}
use ksync.Kernel.Ledger.{one_if, total, boxes, unboxes, sound, makes_item, frees_item}
use ksync.NtStatus.{new}
use ksync.Timer.Delays.{Fresh}
use ksync.WorkItem
use ksync.WorkItem.{
  WorkItem, activate, post, worker_routine_oneshot_stub, worker_routine_stub, drop,
}

-- `post`, and what the system thread then runs.
unfoldable pub posted : ℕ → M (Unit {0})
unfolding post worker_routine_oneshot_stub
posted device = do
  r ← post device
  elim r [ err e ↦ pure tt | ok (item, callback) ↦ worker_routine_oneshot_stub callback item ]

-- A posted closure is used soundly and leaves nothing behind, with or without memory for a work
-- item: its box and the item are gone when it has run, or when `post` has failed.
pub posted-clean :
    (device : ℕ) (k : Kernel) (l : Log)
    → sound l ≡ true
    → Returns (posted device k l) λ _ l'.
      (sound l' ≡ true)
      × (total boxes l' ≡ total boxes l + 1)
      × (total unboxes l' ≡ total unboxes l + 1)
      × (total makes_item l' + total frees_item l ≡ total makes_item l + total frees_item l')
unfolding posted new
posted-clean device k l fine = ground arith

-- A work item is made, activated, run and dropped; `early` drops it before it has run.
unfoldable pub item_life : (early : Bool) → ℕ → M Bool
unfolding WorkItem.new activate worker_routine_stub drop
item_life early device = do
  r ← WorkItem.new device
  elim r [
    | err e ↦ pure false
    | ok self ↦ (do
      context ← activate self
      elim early [
        | true ↦ (do drop self; worker_routine_stub self.callback context)
        | false ↦ (do worker_routine_stub self.callback context; drop self)
      ]
      pure true)
  ]

-- The boxes are returned and the work item is not, or none was made.
abbrev pub LeavesItem : (early made : Bool) → Log → Log → Type 0
LeavesItem early made l l' =
    (sound l' ≡ not (early && made))
    × (total boxes l' + total unboxes l ≡ total boxes l + total unboxes l')
    × (total makes_item l' ≡ total makes_item l + one_if made)
    × (total frees_item l' ≡ total frees_item l)

-- From a sound state, with an allocator that hands out no live box, a work item that is run before
-- it is dropped is used soundly, and one that is dropped before it has run is not; in either order
-- the boxes are returned and the work item never is.
pub item_life-sound :
    (early : Bool) (device : ℕ) (k : Kernel) (l : Log)
    → Fresh k
    → sound l ≡ true
    → Returns (item_life early device k l) λ made l'. LeavesItem early made l l'
unfolding item_life new
item_life-sound early device k l fresh fine =
    let l1 : Log = event (io_allocate_work_item device) (k l (io_allocate_work_item device)) ∷ l in
    let l2 : Log = event box_new (k l1 box_new) ∷ l1 in ground (arith, fresh l1, fresh l2)
