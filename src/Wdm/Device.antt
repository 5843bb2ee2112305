-- ===== src/Wdm/Device.antt =====
-- wdm.rs: `OwnedDevice`, and what `Driver` keeps of it.
use ksync.Base.{
  ℕ, ◌==◌, if◌then◌else◌, null, Option, none, some, is_some, List, [], ◌∷◌, ◌++◌, Result, ok, err,
}
use ksync.Kernel.{M, pure, panic, undefined, call, emit, question, ◌>>=◌, ◌>>◌}
use ksync.Kernel.Abi.{
  box_free, io_create_device, io_delete_device, io_create_symbolic_link, io_delete_symbolic_link,
  io_attach_device_to_device_stack, io_detach_device,
}
use ksync.NtStatus.{NtError, cvt, nt_success, fail, new as error_new}
use ksync.Text.{UnicodeString, utf16_from_str}
use ksync.Mutex.Locked.{status_insufficient_resources}
use ksync.Wdm.{DeviceProperty, get_type, get_characteristics, get_dev_name, get_dev_symbol_name}

-- The contents of the device extension: the handler, as the address of its box, and the device below.
pub record DispatchContext : Type 0 where
  pub irp_handler : ℕ
  pub attach_to : ℕ

pub record OwnedDevice : Type 0 where
  pub name : Option UnicodeString
  pub symbol_name : Option UnicodeString
  pub object : ℕ
  pub ext : Option DispatchContext
  pub dispatch_object : Option ℕ

-- "\\Device\\" and "\\DosDevices\\"
abbrev pub device_prefix : List ℕ
device_prefix = 92 ∷ 68 ∷ 101 ∷ 118 ∷ 105 ∷ 99 ∷ 101 ∷ 92 ∷ []

abbrev pub dos_devices_prefix : List ℕ
dos_devices_prefix = 92 ∷ 68 ∷ 111 ∷ 115 ∷ 68 ∷ 101 ∷ 118 ∷ 105 ∷ 99 ∷ 101 ∷ 115 ∷ 92 ∷ []

abbrev pub size_of_dispatch_context : ℕ
size_of_dispatch_context = 24

abbrev pub status_invalid_parameter_2 : ℕ
status_invalid_parameter_2 = 0xc000_00f0

abbrev pub status_device_already_attached : ℕ
status_device_already_attached = 0xc000_0038

-- Boxes that go out of scope.
unfoldable pub drop_name : Option UnicodeString → M (Unit {0})
drop_name none = pure tt
drop_name (some u) = emit (box_free u.header)

unfoldable pub drop_handler : Option ℕ → M (Unit {0})
drop_handler none = pure tt
drop_handler (some h) = emit (box_free h)

-- The pointer to the name that a kernel routine is given.
abbrev pub header_or_null : Option UnicodeString → ℕ
header_or_null none = null
header_or_null (some u) = u.header

unfoldable pub ext_size : Option ℕ → ℕ
ext_size handler = if is_some handler then size_of_dispatch_context else 0

-- The names that are not given, given and copied, or given and not copied.
unfoldable pub prefixed : List ℕ → List ℕ → M (Result UnicodeString NtError)
prefixed start s = do
  r ← utf16_from_str (start ++ s)
  elim r [ none ↦ fail status_insufficient_resources | some u ↦ pure (ok u) ]

unfoldable pub optional_name : Option (List ℕ) → M (Result (Option UnicodeString) NtError)
unfolding prefixed
optional_name none = pure (ok none)
optional_name (some s) = do r ← prefixed device_prefix s; question r (λ u. pure (ok (some u)))

-- The write of the dispatch context through `DeviceExtension`, `extension`.
unfoldable pub write_context : (extension : ℕ) → Option ℕ → M (Option DispatchContext)
write_context extension none = pure none
write_context extension (some h) =
    if extension == null
    then undefined
    else pure (some (record { irp_handler = h; attach_to = null }))

-- The symbolic link to a named device. On a failed copy of the name the device is left as it is.
unfoldable pub link : (device : ℕ) → UnicodeString → List ℕ → M (Result UnicodeString NtError)
unfolding prefixed
link device name s = do
  r ← prefixed dos_devices_prefix s
  question r (λ symbol. do
    c ← call (io_create_symbolic_link symbol.header name.header)
    fine ← nt_success c.ret
    if fine then pure (ok symbol) else (do
      emit (io_delete_device device)
      e ← error_new c.ret
      emit (box_free symbol.header)
      pure (err e)))

unfoldable pub optional_link :
    (device : ℕ)
    → Option UnicodeString
    → Option (List ℕ)
    → M (Result (Option UnicodeString) NtError)
optional_link device name none = pure (ok none)
optional_link device none (some s) = pure (ok none)
optional_link device (some u) (some s) = do
  r ← link device u s
  question r (λ symbol. pure (ok (some symbol)))

-- An early return: the name and the handler are dropped.
unfoldable pub give_up :
    {A : Type 0} → Option UnicodeString → Option ℕ → NtError → M (Result A NtError)
unfolding drop_name drop_handler
give_up name handler e = do drop_name name; drop_handler handler; pure (err e)

-- `new` once the device is created: the symbolic link, the write of the extension, the result.
unfoldable pub complete :
    (device extension : ℕ)
    → Option UnicodeString
    → DeviceProperty
    → (handler : Option ℕ) → M (Result OwnedDevice NtError)
complete device extension name property handler = do
  s ← optional_link device name (get_dev_symbol_name property)
  elim s [
    | err e ↦ give_up name handler e
    | ok symbol ↦ (do
      ext ← write_context extension handler
      if device == null
          then panic
          else pure (
              ok (record {
                name = name;
                symbol_name = symbol;
                object = device;
                ext = ext;
                dispatch_object = handler;
              })))
  ]

unfoldable pub new :
    (driver : ℕ) → DeviceProperty → (handler : Option ℕ) → M (Result OwnedDevice NtError)
new driver property handler = do
  n ← optional_name (get_dev_name property)
  elim n [
    | err e ↦ give_up none handler e
    | ok name ↦ (do
      d ← call (
          io_create_device driver (ext_size handler) (header_or_null name) (get_type property)
            (get_characteristics property))
      q ← cvt d.ret
      elim q [ err e ↦ give_up name handler e | ok _ ↦ complete d.out d.aux name property handler ])
  ]

-- The extension through which `attach`, `dettach` and `Drop` read and write.
unfoldable pub get_ext : OwnedDevice → M DispatchContext
get_ext self = elim self.ext [ none ↦ undefined | some c ↦ pure c ]

-- `IoAttachDeviceToDeviceStackSafe` stores the device below in the extension.
unfoldable pub attach : OwnedDevice → (target : ℕ) → M (Result (Unit {0}) NtError × OwnedDevice)
unfolding get_ext
attach self target = do
  c ← get_ext self
  if c.attach_to == null
      then (do
        r ← call (io_attach_device_to_device_stack target self.object)
        q ← cvt r.ret
        pure (q, record self { ext = some (record c { attach_to = r.out }) }))
      else (do e ← error_new status_device_already_attached; pure (err e, self))

unfoldable pub get_attached_device : OwnedDevice → M ℕ
unfolding get_ext
get_attached_device self = do c ← get_ext self; pure c.attach_to

unfoldable pub dettach : OwnedDevice → M OwnedDevice
unfolding get_attached_device
dettach self = do
  target ← get_attached_device self
  if target == null then pure self else (do emit (io_detach_device target); pure self)

unfoldable pub as_raw : OwnedDevice → ℕ
as_raw self = self.object

unfoldable pub device_name : OwnedDevice → Option UnicodeString
device_name self = self.name

unfoldable pub symbolic_name : OwnedDevice → Option UnicodeString
symbolic_name self = self.symbol_name

-- The first step of `Drop`.
unfoldable pub delete_link : Option UnicodeString → M (Unit {0})
delete_link none = pure tt
delete_link (some u) = emit (io_delete_symbolic_link u.header)

-- `Drop`, and then the fields in the order of their declaration.
unfoldable pub drop : OwnedDevice → M (Unit {0})
unfolding get_ext drop_name drop_handler delete_link
drop self = do
  delete_link self.symbol_name
  c ← get_ext self
  if c.attach_to == null then pure tt else emit (io_detach_device c.attach_to)
  emit (io_delete_device self.object)
  drop_name self.name
  drop_name self.symbol_name
  drop_handler self.dispatch_object
