-- ===== src/Wdm/Life.antt =====
-- Devices of wdm.rs from creation to drop.
use ksync.Base.{
  if◌then◌else◌, ℕ, ◌+◌, ◌≡◌, ◌≢◌, refl, Bool, true, false, ◌==◌, null, Option, none, some, arith,
  err,
}
use ksync.Kernel.{Kernel, Log, Run, done, panicked, fault, Returns, log_of, ◌>>=◌}
use ksync.Kernel.Ledger.{one_if, total, deletes_device, attaches, detaches}
use ksync.NtStatus.{new as error_new}
use ksync.Wdm.{
  DeviceProperty, set_characteristics, get_type, get_characteristics, get_dev_name,
  get_dev_symbol_name,
}
use ksync.Wdm.Device
use ksync.Wdm.Device.{
  OwnedDevice, DispatchContext, attach, dettach, drop, get_attached_device, link, optional_link,
  prefixed,
}

-- The characteristics that a caller sets never reach the kernel: the device is created the same way
-- whatever they are.
pub characteristics_ignored :
    (driver c : ℕ) (p : DeviceProperty) (handler : Option ℕ) (k : Kernel) (l : Log)
    → Device.new driver (set_characteristics p c) handler k l ≡ Device.new driver p handler k l
unfolding Device.new Device.complete set_characteristics get_type get_characteristics get_dev_name
    get_dev_symbol_name
characteristics_ignored driver c p handler k l = refl

-- From `l` to `l'` a device is attached to another `a` times and detached `d` times, and the
-- device at `x` is deleted so often.
abbrev pub Stack : (x : ℕ) → ℕ → ℕ → ℕ → Log → Log → Type 0
Stack x a d n l l' =
    (total attaches l' ≡ total attaches l + a)
    × (total detaches l' ≡ total detaches l + d)
    × (total (deletes_device x) l' ≡ total (deletes_device x) l + n)

abbrev pub is_faulty : {A : Type 0} → Run A → Bool
is_faulty (done a l) = false
is_faulty (panicked l) = false
is_faulty (fault l) = true

-- For a device that was created without a dispatch handler, so with no extension, `drop`, `attach`
-- and `dettach` read through a null pointer, and `drop` deletes no device.
pub no_handler-fault :
    (self : OwnedDevice) (target x : ℕ) (k : Kernel) (l : Log)
    → self.ext ≡ none
    → (is_faulty (drop self k l) ≡ true)
      × (is_faulty (attach self target k l) ≡ true)
      × (is_faulty (dettach self k l) ≡ true)
      × (total (deletes_device x) (log_of (drop self k l)) ≡ total (deletes_device x) l)
unfolding drop attach dettach
no_handler-fault self target x k l h = ground arith

-- A device that is attached, and dropped, is detached once and deleted once.
pub attach_drop-Stack :
    (self : OwnedDevice) (c : DispatchContext) (x : ℕ) (k : Kernel) (l : Log)
    → self.ext ≡ some c
    → Returns
        (drop self k l)
        λ _. Stack x 0 (if c.attach_to == null then 0 else 1) (one_if (self.object == x)) l
unfolding drop
attach_drop-Stack self c x k l h = ground arith

-- A device that is attached, then detached by `dettach` and then dropped is detached twice and
-- deleted once.
pub dettach_drop-twice :
    (self : OwnedDevice) (c : DispatchContext) (x : ℕ) (k : Kernel) (l : Log)
    → self.ext ≡ some c
    → c.attach_to ≢ null
    → Returns ((dettach self >>= drop) k l) (λ _. Stack x 0 2 (one_if (self.object == x)) l)
unfolding dettach drop
dettach_drop-twice self c x k l h ne = ground arith

-- A second `attach` is refused and calls nothing.
pub attach_twice-refused :
    (self : OwnedDevice) (c : DispatchContext) (target : ℕ) (k : Kernel) (l : Log)
    → self.ext ≡ some c
    → c.attach_to ≢ null
    → attach self target k l
      ≡ done (err (record { code = Device.status_device_already_attached }), self) l
unfolding attach error_new
attach_twice-refused self c target k l h ne = ground arith
