-- ===== src/Wdm/Reference.antt =====
-- wdm.rs: `DeviceObject`, a reference to a device of another driver.
use ksync.Base.{ℕ, ◌≢◌, List, none, some, Result, ok, err, null, arith}
use ksync.Kernel.{Kernel, Log, M, pure, panic, call, emit, Returns, ◌>>=◌, ◌>>◌}
use ksync.Kernel.Abi.{
  box_free, io_get_device_object_pointer, io_get_attached_device_reference,
  io_get_related_device_object,
}
use ksync.NtStatus.{NtError, cvt, fail}
use ksync.Object
use ksync.Object.{KernelObject}
use ksync.Object.Balance.{Refs}
use ksync.Text.{utf16_from_str}
use ksync.Mutex.Locked.{status_insufficient_resources}

-- `KernelObject::new(device).unwrap()`; a `DeviceObject` wraps the object.
unfoldable pub wrap : ℕ → M KernelObject
unfolding Object.new
wrap device = elim (Object.new device) [ none ↦ panic | some object ↦ pure object ]

-- The file object in the reply is forgotten; the name is dropped on every return.
unfoldable pub from_name : List ℕ → M (Result KernelObject NtError)
unfolding wrap
from_name name = do
  u ← utf16_from_str name
  elim u [
    | none ↦ fail status_insufficient_resources
    | some text ↦ (do
      r ← call (io_get_device_object_pointer text.header)
      q ← cvt r.ret
      elim q [
        | err e ↦ (do emit (box_free text.header); pure (err e))
        | ok _ ↦ (do object ← wrap r.out; emit (box_free text.header); pure (ok object))
      ])
  ]

unfoldable pub from_attached : (device : ℕ) → M KernelObject
unfolding wrap
from_attached device = do r ← call (io_get_attached_device_reference device); wrap r.ret

unfoldable pub from_file : (file_object : ℕ) → M KernelObject
unfolding wrap
from_file file_object = do r ← call (io_get_related_device_object file_object); wrap r.ret

-- A device object is obtained and dropped.
unfoldable pub attached_scope : ℕ → M KernelObject
unfolding from_attached Object.release
attached_scope device = do object ← from_attached device; Object.release object; pure object

unfoldable pub file_scope : ℕ → M KernelObject
unfolding from_file Object.release
file_scope file_object = do object ← from_file file_object; Object.release object; pure object

-- Where the kernel returns no null device, a `DeviceObject` from `from_attached` takes one reference
-- and gives it back, and one from `from_file` takes none and gives one back all the same.
pub scopes-Refs :
    (device file_object : ℕ) (k : Kernel) (l : Log)
    → (k l (io_get_attached_device_reference device)).ret ≢ null
    → (k l (io_get_related_device_object file_object)).ret ≢ null
    → Returns (attached_scope device k l) (λ object l'. Refs object.raw 1 1 l l')
      × Returns (file_scope file_object k l) (λ object l'. Refs object.raw 0 1 l l')
unfolding attached_scope file_scope
scopes-Refs device file_object k l some_device some_related = (ground arith, ground arith)
