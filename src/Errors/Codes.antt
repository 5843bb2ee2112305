-- ===== src/Errors/Codes.antt =====
-- `NtError(NonZeroI32)` of ntstatus.rs: `NtError::from` panics on the status 0, and the functions of
-- kobject.rs, handle.rs, thread.rs, mutex.rs and wdm.rs that fail call it with the status of a kernel
-- routine.
use ksync.Base.{ℕ, ◌≡◌, ◌≢◌, some, null, arith, Result, ok, err}
use ksync.Kernel.{Kernel, Log, Run, Returns}
use ksync.Kernel.Abi
use ksync.NtStatus.{NtError, new, cvt}
use ksync.Object.Balance.{NtSuccess}
use ksync.Object.{
  KernelObject, ObjectHandle, checked, from_process_handle, from_thread_handle, from_process_id,
  from_thread_id, from_handle, from_process, from_thread, from_kobject, opened, handle_new,
}
use ksync.Thread.{JoinHandle, spawn, join}
use ksync.Mutex.Kinds.{ResourceMutex, resource_mutex}
use ksync.Mutex.{default_irql_ok}
use ksync.Mutex.Locked
use ksync.Mutex.Locked.{Locked}
use ksync.Wdm.Device.{OwnedDevice, DispatchContext, attach}

-- What the code documents of the routines that it calls: `nt_success` tells by the sign bit, and the
-- object manager opens no null handle.
pub record CodeLaws (k : Kernel) : Type 0 where
  pub signs : NtSuccess k
  pub open_nonnull :
      (l : Log) (o a t : ℕ)
      → (k l (Abi.ob_open_object_by_pointer o a t)).ret ≡ 0
      → (k l (Abi.ob_open_object_by_pointer o a t)).out ≢ null

-- An error has a code other than 0.
abbrev pub Coded : {A : Type 0} → Result A NtError → Type 0
Coded (ok a) = Unit
Coded (err e) = e.code ≢ 0

-- A run ends with a result, whose code is not 0 if it is an error.
abbrev pub Codes : {A : Type 0} → Run (Result A NtError) → Type 0
Codes run = Returns run (λ r _. Coded r)

module _ (k : Kernel) (laws : CodeLaws k) (l : Log) where
  -- Where `nt_success` tells by the sign bit and no null handle is opened, none of the eight
  -- conversions between objects, identifiers and handles panics, whatever status the object manager
  -- answers, and an error that they return has a code other than 0.
  pub conversions-Codes :
      (object_type handle access id : ℕ) (owned : ObjectHandle) (object : KernelObject)
      → Codes (from_process_handle object_type handle access k l)
        × Codes (from_thread_handle object_type handle access k l)
        × Codes (from_process_id id k l)
        × Codes (from_thread_id id k l)
        × Codes (from_handle owned k l)
        × Codes (from_process object_type handle access k l)
        × Codes (from_thread object_type handle access k l)
        × Codes (from_kobject object k l)
  unfolding from_process_handle from_thread_handle from_process_id from_thread_id from_handle
      from_process from_thread from_kobject checked opened handle_new cvt new
  conversions-Codes object_type handle access id owned object = (
    grind (arith, laws.signs),
    grind (arith, laws.signs),
    grind (arith, laws.signs),
    grind (arith, laws.signs),
    ground arith,
    grind (arith, laws.open_nonnull),
    grind (arith, laws.open_nonnull),
    grind (arith, laws.open_nonnull),
  )

  -- The same of `spawn` and `join`, of `Locked::new` and `Locked::lock` over a resource, and of
  -- `attach` on a device that has an extension.
  pub threads-Codes :
      {T : Type 0} (size thread_type target : ℕ) (value : T) (self : JoinHandle)
      (locked : Locked T ResourceMutex) (device : OwnedDevice) (context : DispatchContext)
      → device.ext ≡ some context
      → Codes (spawn k l)
        × Codes (join thread_type self k l)
        × Codes (Locked.new resource_mutex size value k l)
        × Codes (Locked.lock resource_mutex locked k l)
        × Returns (attach device target k l) (λ r _. Coded r.0)
  unfolding spawn join Locked.new Locked.lock attach cvt new default_irql_ok
  threads-Codes size thread_type target value self locked device context extended =
      (grind (arith, laws.signs), ground arith, ground arith, ground arith, ground arith)
