-- ===== src/Wdm.antt =====
-- wdm.rs: `DeviceProperty`, `Driver`, `OwnedDevice`; utils.rs: the IRP helpers. A device's extension is
-- what the kernel stores for it: none for a null pointer. A boxed dispatch handler is its address.
pub mod Device
pub mod Request
pub mod Life
pub mod Table
pub mod Creation
pub mod Reference
pub mod Named
pub mod Whole
pub mod Accepted
pub mod Fleet
pub mod Delivery
use ksync.Base.{ℕ, Option, none, some, List}

pub record DeviceProperty : Type 0 where
  pub dev_type : ℕ
  pub dev_characteristics : ℕ
  pub dev_name : Option (List ℕ)
  pub dev_symbol_name : Option (List ℕ)

-- `FILE_DEVICE_UNKNOWN` and `FILE_DEVICE_SECURE_OPEN`
abbrev pub file_device_unknown : ℕ
file_device_unknown = 0x22

abbrev pub file_device_secure_open : ℕ
file_device_secure_open = 0x100

unfoldable pub property_new : DeviceProperty
property_new = record {
  dev_type = file_device_unknown;
  dev_characteristics = file_device_secure_open;
  dev_name = none;
  dev_symbol_name = none;
}

unfoldable pub get_type : DeviceProperty → ℕ
get_type self = self.dev_type

-- As in the source, which reads `dev_type`.
unfoldable pub get_characteristics : DeviceProperty → ℕ
get_characteristics self = self.dev_type

unfoldable pub get_dev_name : DeviceProperty → Option (List ℕ)
get_dev_name self = self.dev_name

unfoldable pub get_dev_symbol_name : DeviceProperty → Option (List ℕ)
get_dev_symbol_name self = self.dev_symbol_name

unfoldable pub set_type : DeviceProperty → ℕ → DeviceProperty
set_type self t = record self { dev_type = t }

unfoldable pub set_characteristics : DeviceProperty → ℕ → DeviceProperty
set_characteristics self c = record self { dev_characteristics = c }

unfoldable pub set_name : DeviceProperty → List ℕ → DeviceProperty
set_name self name = record self { dev_name = some name }

unfoldable pub set_symbol_name : DeviceProperty → List ℕ → DeviceProperty
set_symbol_name self name = record self { dev_symbol_name = some name }
