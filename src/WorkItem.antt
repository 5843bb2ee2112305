-- ===== src/WorkItem.antt =====
-- workitem.rs: `WorkItem`, and the routines that a system thread runs for it. `callback` is the box of
-- the closure, `context` the box of the fat pointer that `activate` makes.
pub mod Boxes
use ksync.Base.{ℕ, ◌==◌, if◌then◌else◌, null, Result, ok, err}
use ksync.Kernel.{M, pure, call, emit, ◌>>=◌, ◌>>◌}
use ksync.Kernel.Abi.{
  box_new, box_free, invoke, io_allocate_work_item, io_free_work_item, io_queue_work_item,
}
use ksync.NtStatus.{NtError, fail}
use ksync.Mutex.Locked.{status_insufficient_resources}

pub record WorkItem : Type 0 where
  pub inner : ℕ
  pub callback : ℕ

-- The closure is boxed only if there is an item; otherwise it is dropped unboxed.
unfoldable pub new : (device : ℕ) → M (Result WorkItem NtError)
new device = do
  item ← call (io_allocate_work_item device)
  if item.ret == null then fail status_insufficient_resources else (do
    callback ← call box_new
    pure (ok (record { inner = item.ret; callback = callback.ret })))

-- The reply is the context, which the routine gets with the callback that it points to.
unfoldable pub activate : WorkItem → M ℕ
activate self = do
  context ← call box_new
  emit (io_queue_work_item self.inner context.ret)
  pure context.ret

-- The closure is boxed first, and its box dropped when there is no item.
unfoldable pub post : (device : ℕ) → M (Result (ℕ × ℕ) NtError)
post device = do
  callback ← call box_new
  item ← call (io_allocate_work_item device)
  if item.ret == null
      then (do emit (box_free callback.ret); fail status_insufficient_resources)
      else (do emit (io_queue_work_item item.ret callback.ret); pure (ok (item.ret, callback.ret)))

unfoldable pub worker_routine_oneshot_stub : (context item : ℕ) → M (Unit {0})
worker_routine_oneshot_stub context item = do
  emit (invoke context)
  emit (box_free context)
  emit (io_free_work_item item)

unfoldable pub worker_routine_stub : (callback context : ℕ) → M (Unit {0})
worker_routine_stub callback context = do emit (invoke callback); emit (box_free context)

-- There is no `Drop`: the fields are dropped, so the box of the callback is, and the item is not.
unfoldable pub drop : WorkItem → M (Unit {0})
drop self = emit (box_free self.callback)
