-- ===== src/Dpc.antt =====
-- dpc.rs: `Dpc`, `ThreadedDpc`, DPCs that run once, and the routines that the kernel calls.
pub mod Boxes
use ksync.Base.{ℕ, zero, suc, ◌-◌, ◌%◌, ◌^◌, ◌==◌, if◌then◌else◌, null, Result, ok, err}
use ksync.Kernel.{M, pure, call, emit, ◌>>=◌, ◌>>◌}
use ksync.Kernel.Abi.{
  box_new, box_free, invoke, ex_free_pool, ke_initialize_dpc, ke_initialize_threaded_dpc,
  ke_set_target_processor_dpc, ke_insert_queue_dpc, ke_query_active_processor_count,
}
use ksync.NtStatus.{NtError, fail}
use ksync.Utils.{ex_allocate_pool_zero, non_paged_pool_nx}
use ksync.Mutex.Locked.{status_insufficient_resources}

-- `Dpc` and `ThreadedDpc` are the address of a `KDPC`.
pub record Dpc : Type 0 where
  pub raw : ℕ

-- `u32::from_ne_bytes(*b"cpdk")`
abbrev pub dpc_tag : ℕ
dpc_tag = 0x6b64_7063

unfoldable pub new : (size : ℕ) → M (Result Dpc NtError)
unfolding ex_allocate_pool_zero
new size = do
  layout ← ex_allocate_pool_zero non_paged_pool_nx size dpc_tag
  if layout == null then fail status_insufficient_resources else (do
    callback ← call box_new
    emit (ke_initialize_dpc layout callback.ret)
    pure (ok (record { raw = layout })))

-- `Dpc::get` and `ThreadedDpc::get`.
unfoldable pub get : Dpc → ℕ
get self = self.raw

unfoldable pub threaded_get : Dpc → ℕ
threaded_get self = self.raw

unfoldable pub threaded_new : (size : ℕ) → M (Result Dpc NtError)
unfolding ex_allocate_pool_zero
threaded_new size = do
  layout ← ex_allocate_pool_zero non_paged_pool_nx size dpc_tag
  if layout == null then fail status_insufficient_resources else (do
    callback ← call box_new
    emit (ke_initialize_threaded_dpc layout callback.ret)
    pure (ok (record { raw = layout })))

-- `core as _` to a `CCHAR`, the bits of an `i8`.
unfoldable pub cchar : (core : ℕ) → ℕ
cchar core = core % 2 ^ 8

unfoldable pub set_affinity : Dpc → (core : ℕ) → M (Unit {0})
unfolding cchar
set_affinity self core = emit (ke_set_target_processor_dpc self.raw (cchar core))

unfoldable pub activate : Dpc → M (Unit {0})
activate self = emit (ke_insert_queue_dpc self.raw)

unfoldable pub drop : Dpc → M (Unit {0})
drop self = emit (ex_free_pool self.raw dpc_tag)

-- `create_ordinary_dpc` and `create_threaded_dpc` differ from the constructors in the routine only,
-- and return the address.
unfoldable pub create_ordinary_dpc : (size : ℕ) → M (Result ℕ NtError)
unfolding ex_allocate_pool_zero
create_ordinary_dpc size = do
  layout ← ex_allocate_pool_zero non_paged_pool_nx size dpc_tag
  if layout == null then fail status_insufficient_resources else (do
    callback ← call box_new
    emit (ke_initialize_dpc layout callback.ret)
    pure (ok layout))

unfoldable pub create_threaded_dpc : (size : ℕ) → M (Result ℕ NtError)
unfolding ex_allocate_pool_zero
create_threaded_dpc size = do
  layout ← ex_allocate_pool_zero non_paged_pool_nx size dpc_tag
  if layout == null then fail status_insufficient_resources else (do
    callback ← call box_new
    emit (ke_initialize_threaded_dpc layout callback.ret)
    pure (ok layout))

-- `ThreadedDpc::activate`, and its `Drop`.
unfoldable pub threaded_activate : Dpc → M (Unit {0})
threaded_activate self = emit (ke_insert_queue_dpc self.raw)

unfoldable pub threaded_drop : Dpc → M (Unit {0})
threaded_drop self = emit (ex_free_pool self.raw dpc_tag)

unfoldable pub run_once : (size : ℕ) → M (Unit {0})
unfolding create_ordinary_dpc
run_once size = do
  r ← create_ordinary_dpc size
  elim r [ ok dpc ↦ emit (ke_insert_queue_dpc dpc) | err e ↦ pure tt ]

unfoldable pub run_once_core : (size core : ℕ) → M (Unit {0})
unfolding create_ordinary_dpc cchar
run_once_core size core = do
  r ← create_ordinary_dpc size
  elim r [
    | ok dpc ↦ (do
      emit (ke_set_target_processor_dpc dpc (cchar core))
      emit (ke_insert_queue_dpc dpc))
    | err e ↦ pure tt
  ]

-- The loop of `run_once_per_core`, over the cores from `total - left` on; one that has no memory for
-- its DPC is passed over.
unfoldable pub run_cores : (size total left : ℕ) → M (Unit {0})
unfolding run_once_core
run_cores size total zero = pure tt
run_cores size total (suc left) = do
  run_once_core size (total - suc left)
  run_cores size total left

unfoldable pub run_once_per_core : (size : ℕ) → M (Unit {0})
unfolding run_cores
run_once_per_core size = do r ← call ke_query_active_processor_count; run_cores size r.ret r.ret

unfoldable pub run_once_threaded : (size : ℕ) → M (Unit {0})
unfolding create_threaded_dpc
run_once_threaded size = do
  r ← create_threaded_dpc size
  elim r [ ok dpc ↦ emit (ke_insert_queue_dpc dpc) | err e ↦ pure tt ]

-- The routine of a `Dpc`: the context becomes a box again, so it is dropped at the end.
unfoldable pub deferred_routine_stub : (context : ℕ) → M (Unit {0})
deferred_routine_stub context = do emit (invoke context); emit (box_free context)

unfoldable pub deferred_routine_once_stub : (dpc context : ℕ) → M (Unit {0})
deferred_routine_once_stub dpc context = do
  emit (invoke context)
  emit (box_free context)
  emit (ex_free_pool dpc dpc_tag)
