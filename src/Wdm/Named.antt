-- ===== src/Wdm/Named.antt =====
-- wdm.rs: the deprecated `OwnedDevice::with_name` and `Driver::create_device_with_name`.
use ksync.Base.{
  ℕ, ◌==◌, if◌then◌else◌, null, Option, none, some, List, [], ◌∷◌, ◌++◌, Result, ok, err,
}
use ksync.Kernel.{M, pure, panic, call, ◌>>=◌, ◌>>◌}
use ksync.Kernel.Abi.{io_create_device}
use ksync.NtStatus.{NtError, cvt, fail}
use ksync.Text.{UnicodeString}
use ksync.Wdm.{file_device_unknown, file_device_secure_open}
use ksync.Wdm.Device.{
  OwnedDevice, device_prefix, drop_name, drop_handler, ext_size, give_up, prefixed, write_context,
  link, status_invalid_parameter_2,
}
use ksync.Wdm.Table.{Driver}

-- The symbolic link, if one is asked for.
unfoldable pub maybe_link :
    (device : ℕ) → UnicodeString → Option (List ℕ) → M (Result (Option UnicodeString) NtError)
maybe_link device name none = pure (ok none)
maybe_link device name (some s) = do
  r ← link device name s
  elim r [ err e ↦ pure (err e) | ok symbol ↦ pure (ok (some symbol)) ]

-- The part after `IoCreateDevice`. On its early return the handler is dropped before the name.
unfoldable pub finish :
    (device extension : ℕ)
    → UnicodeString
    → (symbol_name : Option (List ℕ)) → (handler : Option ℕ) → M (Result OwnedDevice NtError)
finish device extension name symbol_name handler = do
  ext ← write_context extension handler
  s ← maybe_link device name symbol_name
  elim s [
    | err e ↦ (do drop_handler handler; drop_name (some name); pure (err e))
    | ok symbol ↦
        if device == null
        then panic
        else pure (
            ok (record {
              name = some name;
              symbol_name = symbol;
              object = device;
              ext = ext;
              dispatch_object = handler;
            }))
  ]

unfoldable pub with_name :
    (driver : ℕ)
    → (name : List ℕ) → (symbol_name : Option (List ℕ)) → (handler : Option ℕ)
    → M (Result OwnedDevice NtError)
with_name driver [] symbol_name handler = do drop_handler handler; fail status_invalid_parameter_2
with_name driver (c ∷ s) symbol_name handler = do
  n ← prefixed device_prefix (c ∷ s)
  elim n [
    | err e ↦ give_up none handler e
    | ok name ↦ (do
      d ← call (
          io_create_device driver (ext_size handler) name.header file_device_unknown
            file_device_secure_open)
      q ← cvt d.ret
      elim q [
        | err e ↦ give_up (some name) handler e
        | ok _ ↦ finish d.out d.aux name symbol_name handler
      ])
  ]

unfoldable pub create_device_with_name :
    Driver
    → (name : List ℕ) → (symbol_name : Option (List ℕ)) → (handler : Option ℕ)
    → M (Result OwnedDevice NtError × Driver)
create_device_with_name self name symbol_name handler = do
  r ← with_name self.object name symbol_name handler
  elim r [
    | err e ↦ pure (err e, self)
    | ok dev ↦ pure (ok dev, record self { devices = self.devices ++ dev ∷ [] })
  ]
