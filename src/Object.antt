-- ===== src/Object.antt =====
-- kobject.rs and handle.rs: owned references to kernel objects and owned handles. An object, a
-- handle and a client identifier are numbers. `object_type` is what the kernel stores at
-- `PsProcessType` and `PsThreadType`.
pub mod Wait
pub mod Balance
use ksync.Base.{
  ℕ, Bool, true, false, not, ◌==◌, if◌then◌else◌, null, Option, none, some, Result, ok, err,
}
use ksync.Kernel.{M, pure, panic, call, emit, question, ◌>>=◌, ◌>>◌}
use ksync.Kernel.Abi.{
  ob_reference_object_by_handle, ob_open_object_by_pointer, obf_dereference_object,
  ps_lookup_process_by_process_id, ps_lookup_thread_by_thread_id, zw_close,
}
use ksync.NtStatus.{NtError, cvt, nt_success, fail}

-- `KernelObject<T>` and its `new`, which refuses the null pointer.
pub record KernelObject : Type 0 where
  pub raw : ℕ

unfoldable pub new : ℕ → Option KernelObject
new value = if value == null then none else some (record { raw = value })

unfoldable pub as_ptr : KernelObject → ℕ
as_ptr self = self.raw

-- `Dereference::release`.
unfoldable pub release : KernelObject → M (Unit {0})
release self = emit (obf_dereference_object self.raw)

-- The `Drop`.
unfoldable pub drop_object : KernelObject → M (Unit {0})
unfolding release
drop_object self = release self

-- The tail that `from_process_handle` and the lookups share: a test of the status of a call.
unfoldable pub checked : ℕ → ℕ → M (Result KernelObject NtError)
checked status value = do
  fine ← nt_success status
  if not fine then fail status else pure (ok (record { raw = value }))

unfoldable pub from_process_handle :
    (process_type handle access : ℕ) → M (Result KernelObject NtError)
unfolding checked
from_process_handle process_type handle access = do
  r ← call (ob_reference_object_by_handle handle access process_type)
  checked r.ret r.out

unfoldable pub from_thread_handle :
    (thread_type handle access : ℕ) → M (Result KernelObject NtError)
unfolding checked
from_thread_handle thread_type handle access = do
  r ← call (ob_reference_object_by_handle handle access thread_type)
  checked r.ret r.out

unfoldable pub from_process_id : ℕ → M (Result KernelObject NtError)
unfolding checked
from_process_id id = do r ← call (ps_lookup_process_by_process_id id); checked r.ret r.out

unfoldable pub from_thread_id : ℕ → M (Result KernelObject NtError)
unfolding checked
from_thread_id id = do r ← call (ps_lookup_thread_by_thread_id id); checked r.ret r.out

abbrev pub generic_all : ℕ
generic_all = 0x1000_0000

-- `ObjectHandle`, over a `NonNull`.
pub record ObjectHandle : Type 0 where
  pub raw : ℕ

-- `NonNull::new(h).unwrap()`
unfoldable pub handle_new : ℕ → M ObjectHandle
handle_new h = if h == null then panic else pure (record { raw = h })

unfoldable pub handle_get : ObjectHandle → ℕ
handle_get self = self.raw

-- `FromOwnedHandle::from_handle`; no object type is asked for.
unfoldable pub from_handle : ObjectHandle → M (Result KernelObject NtError)
from_handle handle = do
  r ← call (ob_reference_object_by_handle handle.raw generic_all null)
  q ← cvt r.ret
  question q (λ _. pure (ok (record { raw = r.out })))

-- The tail of the three conversions of an object to a handle.
unfoldable pub opened : ℕ → ℕ → M (Result ObjectHandle NtError)
unfolding handle_new
opened status handle = do q ← cvt status; question q (λ _. do h ← handle_new handle; pure (ok h))

unfoldable pub from_process : (process_type process access : ℕ) → M (Result ObjectHandle NtError)
unfolding opened
from_process process_type process access = do
  r ← call (ob_open_object_by_pointer process access process_type)
  opened r.ret r.out

unfoldable pub from_thread : (thread_type thread access : ℕ) → M (Result ObjectHandle NtError)
unfolding opened
from_thread thread_type thread access = do
  r ← call (ob_open_object_by_pointer thread access thread_type)
  opened r.ret r.out

unfoldable pub from_kobject : KernelObject → M (Result ObjectHandle NtError)
unfolding opened
from_kobject object = do
  r ← call (ob_open_object_by_pointer object.raw generic_all null)
  opened r.ret r.out

-- `CloseHandle::close`, which is also the `Drop`.
unfoldable pub close : ObjectHandle → M (Unit {0})
close self = emit (zw_close self.raw)

-- `OwnedHandle::new`, and its `Deref`.
unfoldable pub owned_new : {T : Type 0} → T → T
owned_new value = value

unfoldable pub owned_deref : {T : Type 0} → T → T
owned_deref self = self

-- `OwnedHandle<T>` wraps a `T`: its `Drop` closes the handle, and then the field is dropped. `close_it`
-- is the `CloseHandle` of `T` and `drop_it` its `Drop`.
unfoldable pub owned_drop : {T : Type 0} → (close_it drop_it : T → M (Unit {0})) → T → M (Unit {0})
owned_drop close_it drop_it self = do close_it self; drop_it self
