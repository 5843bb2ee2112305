-- ===== src/Tests/Objects.antt =====
-- Objects and handles of kobject.rs and handle.rs, threads of thread.rs, events of event.rs.
use ksync.Kernel.Ledger.{signaled, sema_of, total, takes, gives, opens, closes}
use ksync.Base.{false, List, ◌∷◌, ◌++◌, Bool, true, ◌+◌, ◌≡◌, refl, arith, []}
use ksync.Kernel.{Log, Returns}
use ksync.Object
use ksync.Object.Balance
use ksync.Thread.Join
use ksync.Thread.Orders
use ksync.Thread.Orders.Whole
use ksync.Sync
use ksync.Sync.Sequences
use ksync.Sync.Laws.{EventLaws}
use ksync.Kernel.Abi
use ksync.Kernel.Sequences.{sequence, references}
use ksync.Tests.Kernels.{answer, standard, standard-signs}

standard-ObLaws : Balance.ObLaws standard
standard-ObLaws = record {
  reference_plain = λ l h a t. refl;
  open_plain = λ l o a t. refl;
  open_nonnull = λ l o a t e. omega arith;
}

standard-WaitLaws : Join.WaitLaws standard
standard-WaitLaws = record { unlimited = λ l o. refl }

conversions-Owns_example :
    Returns (Object.from_process_handle 9 300 1 standard []) (Balance.Owns [])
    × Returns (Object.from_thread_handle 9 300 1 standard []) (Balance.Owns [])
    × Returns (Object.from_process_id 4 standard []) (Balance.Owns [])
    × Returns (Object.from_thread_id 4 standard []) (Balance.Owns [])
conversions-Owns_example = Balance.conversions-Owns 9 300 1 4 standard [] standard-signs

abbrev handle : Object.ObjectHandle
handle = record { raw = 300 }

abbrev object : Object.KernelObject
object = record { raw = 40 }

borrow-balanced_example :
    Returns (Balance.borrow_object handle standard []) (λ _ l'.
      total (takes 1300) l' + total (gives 1300) [] ≡ total (takes 1300) [] + total (gives 1300) l')
    × Returns (Balance.borrow_handle object standard []) (λ _ l'.
      total (opens 1300) l' + total (closes 1300) []
      ≡ total (opens 1300) [] + total (closes 1300) l')
borrow-balanced_example = Balance.borrow-balanced handle object standard [] standard-ObLaws 1300

-- The owner tries to join before the new thread has run.
abbrev early_join : List Bool
early_join = false ∷ true ∷ []

spawned-Settled_example :
    Returns
      (Orders.spawned 9 true (early_join ++ Orders.last_turns) standard [])
      (Whole.Settled 88 [])
spawned-Settled_example =
    Whole.spawned-Settled 9 88 true early_join standard [] standard-signs standard-ObLaws
      standard-WaitLaws refl

standard-EventLaws : EventLaws standard
standard-EventLaws = record {
  reset_reports = λ l e. ground arith;
  read_reports = λ l e. ground arith;
}

abbrev event : Sync.Event
event = record { raw = 700 }

abbrev event_calls : List Sequences.EventOp
event_calls =
    Sequences.set ∷ Sequences.get_state ∷ Sequences.reset ∷ Sequences.reset ∷ Sequences.clear ∷ []

event_ops_refine_example :
    Returns (sequence (Sequences.event_op event) event_calls standard []) λ answers l'.
      (answers ≡ (references Sequences.event_reference event_calls (signaled 700 [])).1)
      × (signaled 700 l' ≡ (references Sequences.event_reference event_calls (signaled 700 [])).0)
event_ops_refine_example =
    Sequences.event_ops_refine event event_calls standard [] standard-EventLaws

standard-SemaLaws : Sequences.SemaLaws standard
standard-SemaLaws = record { read_reports = λ l p. refl; wait_reports = λ l p due. refl }

abbrev sema : Sync.Semaphore
sema = record { raw = 710 }

-- A semaphore with the count 1 and the limit 3, at 710.
abbrev sema_made : Log
sema_made = Abi.event (Abi.ke_initialize_semaphore 710 1 3) (answer 0) ∷ []

abbrev sema_calls : List Sequences.SemaOp
sema_calls =
    Sequences.release 2
    ∷ Sequences.wait_some 500
    ∷ Sequences.release_then_wait 1 500
    ∷ Sequences.read
    ∷ []

sema_ops_refine_example :
    Returns (sequence (Sequences.sema_op sema) sema_calls standard sema_made) λ answers l'.
      (answers ≡ (references Sequences.sema_reference sema_calls (sema_of 710 sema_made)).1)
      × (sema_of 710 l'
          ≡ (references Sequences.sema_reference sema_calls (sema_of 710 sema_made)).0)
sema_ops_refine_example =
    Sequences.sema_ops_refine sema sema_calls standard sema_made standard-SemaLaws
      (omega arith, (tt, (omega arith, (tt, tt))))
