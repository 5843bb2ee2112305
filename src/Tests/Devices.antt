-- ===== src/Tests/Devices.antt =====
-- Devices and requests of wdm.rs.
use ksync.Base.{List, ℕ, refl, arith, [], ◌∷◌, some, none, ok, err, Result}
use ksync.Kernel.{Returns}
use ksync.NtStatus.{NtError}
use ksync.Text.{UnicodeString}
use ksync.Wdm.Device
use ksync.Wdm.Request.{Irp}
use ksync.Wdm.Fleet
use ksync.Wdm.Fleet.Books
use ksync.Wdm.{DeviceProperty}
use ksync.Wdm.Whole.{DeviceLaws}
use ksync.Tests.Kernels.{standard, standard-signs}

abbrev pub request : Irp
request = record {
  address = 3000;
  current_location = 1;
  stack_count = 2;
  current = record { control = 224 };
  status = 0;
  information = 0;
}

-- A handler that reports 17 bytes, and one that leaves every request pending.
abbrev pub reports : Irp → Result ℕ NtError
reports irp = ok 17

abbrev leaves_pending : Irp → Result ℕ NtError
leaves_pending irp = err (record { code = 0x103 })

abbrev pub no_routine : ℕ → ℕ
no_routine i = 0

-- A device without a handler, and one that is attached to the device at 8000.
abbrev unhandled : Device.OwnedDevice
unhandled = record {
  name = none;
  symbol_name = none;
  object = 6000;
  ext = none;
  dispatch_object = none;
}

abbrev context : Device.DispatchContext
context = record { irp_handler = 40; attach_to = 8000 }

abbrev attached : Device.OwnedDevice
attached = record {
  name = none;
  symbol_name = none;
  object = 6000;
  ext = some context;
  dispatch_object = some 40;
}

-- "\Device\x"
abbrev named : UnicodeString
named = record {
  header = 50;
  byte_length = 18;
  maximum_length = 18;
  buffer = 66;
  units = 92 ∷ 68 ∷ 101 ∷ 118 ∷ 105 ∷ 99 ∷ 101 ∷ 92 ∷ 120 ∷ [];
}

pub standard-DeviceLaws : DeviceLaws standard
standard-DeviceLaws = record {
  signs = standard-signs;
  room = λ l n t. omega arith;
  create_plain = λ l d s n t c. refl;
  create_object = λ l d s n t c fine. omega arith;
  create_extension = λ l d s n t c fine asked. omega arith;
  attach_object = λ l t d. refl;
}

-- "x" with the link "y", and a device without a name.
abbrev pub linked_property : DeviceProperty
linked_property = record {
  dev_type = 34;
  dev_characteristics = 256;
  dev_name = some (120 ∷ []);
  dev_symbol_name = some (121 ∷ []);
}

abbrev nameless : DeviceProperty
nameless = record {
  dev_type = 34;
  dev_characteristics = 256;
  dev_name = none;
  dev_symbol_name = none;
}

abbrev some_orders : List (Fleet.Order × ℕ)
some_orders =
    (Fleet.by_property linked_property, 40)
    ∷ (Fleet.by_property nameless, 41)
    ∷ (Fleet.by_name (122 ∷ []) (some (121 ∷ [])), 42)
    ∷ []

driver_life-settles_example :
    Returns
      (Fleet.driver_life 4000 900 no_routine some_orders standard [])
      (λ u. Books.Owing 5000 4096 0 0 0 [])
driver_life-settles_example =
    Fleet.driver_life-settles 4000 900 no_routine some_orders standard [] 5000 4096
      standard-DeviceLaws (omega arith)
