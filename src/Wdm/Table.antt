-- ===== src/Wdm/Table.antt =====
-- wdm.rs: `Driver`, its dispatch table and its devices.
use Prim.Native.Nat.{bit_or}
use ksync.Base.{
  ◌≢◌, ℕ, zero, suc, ◌≡◌, ◌==◌, ltb, if◌then◌else◌, null, Option, List, [], ◌∷◌, ◌++◌, Result, ok,
  err, arith,
}
use ksync.Kernel.{M, pure, panic, ◌>>=◌}
use ksync.NtStatus.{NtError}
use ksync.Wdm.{DeviceProperty}
use ksync.Wdm.Device
use ksync.Wdm.Device.{OwnedDevice}

-- The driver object: the routine of each major function, and the devices created so far. `stub` is the
-- address of `irp_dispatch_stub`.
pub record Driver : Type 0 where
  pub object : ℕ
  pub major_function : ℕ → ℕ
  pub devices : List OwnedDevice

-- `IRP_MJ_MAXIMUM_FUNCTION`, the number of the last major function.
abbrev pub irp_mj_maximum_function : ℕ
irp_mj_maximum_function = 0x1b

-- The loop over `0..n`, from the last round back.
unfoldable pub hook : (stub n : ℕ) → (ℕ → ℕ) → ℕ → ℕ
hook stub zero table i = table i
hook stub (suc n) table i = if i == n then stub else hook stub n table i

unfoldable pub setup_dispatch_routines : (stub : ℕ) → (ℕ → ℕ) → ℕ → ℕ
unfolding hook
setup_dispatch_routines stub table i =
    if table 0 == stub then table i else hook stub irp_mj_maximum_function table i

unfoldable pub driver_new : (stub driver : ℕ) → (table : ℕ → ℕ) → M Driver
unfolding setup_dispatch_routines
driver_new stub driver table =
    if driver == null
    then panic
    else pure (record {
      object = driver;
      major_function = setup_dispatch_routines stub table;
      devices = [];
    })

unfoldable pub driver_as_raw : Driver → ℕ
driver_as_raw self = self.object

-- The `Flags` of the driver's entry in the list of loaded modules, after the bit 0x20 is set.
unfoldable pub disable_integrity_check : (flags : ℕ) → ℕ
disable_integrity_check flags = bit_or flags 0x20

unfoldable pub create_device :
    Driver → DeviceProperty → (handler : Option ℕ) → M (Result OwnedDevice NtError × Driver)
unfolding Device.new
create_device self property handler = do
  r ← Device.new self.object property handler
  elim r [
    | err e ↦ pure (err e, self)
    | ok dev ↦ pure (ok dev, record self { devices = self.devices ++ dev ∷ [] })
  ]

-- `DeviceProperty::new_device`
unfoldable pub new_device :
    DeviceProperty → Driver → (handler : Option ℕ) → M (Result OwnedDevice NtError × Driver)
unfolding create_device
new_device property driver handler = create_device driver property handler

hook-ltb :
    (stub n : ℕ) (table : ℕ → ℕ) (i : ℕ) → hook stub n table i ≡ (if ltb i n then stub else table i)
unfolding hook
hook-ltb stub zero table i = ground arith
hook-ltb stub (suc n) table i = ground (arith, hook-ltb stub n table i)

-- On a table that is not set up yet, every major function below the last becomes the stub; the last
-- one, number 0x1b (`IRP_MJ_PNP`), keeps the routine that it had.
pub setup_dispatch_routines_misses_last :
    (stub : ℕ) (table : ℕ → ℕ) (i : ℕ)
    → table 0 ≢ stub
    → setup_dispatch_routines stub table i
      ≡ (if ltb i irp_mj_maximum_function then stub else table i)
unfolding setup_dispatch_routines
setup_dispatch_routines_misses_last stub table i fresh =
    ground (arith, hook-ltb stub irp_mj_maximum_function table i)
