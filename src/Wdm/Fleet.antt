-- ===== src/Wdm/Fleet.antt =====
-- `Driver` of wdm.rs and the devices that it owns, from `new` to the drop.
pub mod Books
use ksync.Wdm.Fleet.Books.{
  Owing, devices_of, links_of, Ready, links_of-append, devices_of-append, Ready-append,
}
use mathlib.Core.Path.{subst}
use ksync.Base.{
  Result, Option, ◌++◌, length, [], ◌∷◌, List, ◌≢◌, ◌==◌, refl, false, null, is_some, ℕ, ◌+◌, ◌≡◌,
  Bool, true, inl, inr, some, arith, ok, err, Result-cases,
}
use ksync.Kernel.{Kernel, Log, M, pure, Returns, Returns-run, ◌>>=◌, ◌>>◌}
use ksync.Kernel.Ledger.{
  one_if, total, creates_device, deletes_device, creates_link, deletes_link, attaches, detaches,
}
use ksync.Wdm.{DeviceProperty}
use ksync.Wdm.Device
use ksync.Wdm.Device.{OwnedDevice, DispatchContext, attach, drop}
use ksync.Wdm.Table.{Driver, driver_new, create_device, new_device, setup_dispatch_routines}
use ksync.NtStatus.{NtError}
use ksync.Wdm.Named.{with_name, create_device_with_name}
use ksync.Wdm.Whole.ByName.{with_name-Born}
use ksync.Wdm.Whole.Birth.{new-Born, Born}
use ksync.Wdm.Whole.{DeviceLaws, attach-Attached, Attached, drop-Did}

-- One device: created with the handler in the box at `h`, attached to `target`, dropped.
unfoldable pub device_life : (driver h target : ℕ) → DeviceProperty → M Bool
device_life driver h target p = do
  r ← Device.new driver p (some h)
  elim r [ err e ↦ pure false | ok self ↦ (do q ← attach self target; drop q.1; pure true) ]

-- With the kernel as the laws say, a device that is created with a handler, attached, and dropped, or
-- whose creation fails, leaves no device, no symbolic link and no attachment behind.
pub device_life-settles :
    (driver h target : ℕ) (p : DeviceProperty) (k : Kernel) (l : Log) (x y : ℕ)
    → DeviceLaws k
    → Returns (device_life driver h target p k l) (λ b. Owing x y 0 0 0 l)
unfolding device_life
device_life-settles driver h target p k l x y laws =
    let (r, l1, e1, born) =
      Returns-run {P = Born k laws x y h l} (Device.new driver p (some h) k l)
        (new-Born k laws x y driver h p l) in
    elim (Result-cases r) [
      | inr (e, bad) ↦
          let none_left : Born k laws x y h l (err e) l1 =
            subst (λ r. Born k laws x y h l r l1) bad born in
          rw (e1, bad) (ground (arith, none_left))
      | inl (self, good) ↦
          let (extended, made) : Born k laws x y h l (ok self) l1 =
            subst (λ r. Born k laws x y h l r l1) good born in
          let (q, l2, e2, (c, extended', same, at, did)) =
            Returns-run {P = Attached k laws x y self l1} (attach self target k l1)
              (attach-Attached k laws x y self _ target l1 extended refl) in
          let (u, l3, e3, gone) =
            Returns-run (drop q.1 k l2) (drop-Did k laws x y q.1 c l2 extended') in
          rw (e1, good, e2, e3) (ground (arith, made, did, gone, same, at))
    ]

-- The drop of a `Driver` drops its devices in the order of their creation.
unfoldable pub drop_devices : List OwnedDevice → M (Unit {0})
drop_devices [] = pure tt
drop_devices (dev ∷ devs) = do drop dev; drop_devices devs

unfoldable pub driver_drop : Driver → M (Unit {0})
driver_drop self = drop_devices self.devices

-- What a device is created from: a property, or names and the deprecated constructor.
pub data Order : Type 0 where
  by_property : DeviceProperty → Order
  by_name : (name : List ℕ) (symbol_name : Option (List ℕ)) → Order

unfoldable pub create_one : Driver → Order → (handler : ℕ) → M (Result OwnedDevice NtError × Driver)
create_one self (by_property p) h = new_device p self (some h)
create_one self (by_name name symbol_name) h =
    create_device_with_name self name symbol_name (some h)

-- Devices with their handlers, created one after the other; one that fails is passed over.
unfoldable pub create_all : Driver → List (Order × ℕ) → M Driver
create_all self [] = pure self
create_all self ((o, h) ∷ os) = do r ← create_one self o h; create_all r.1 os

-- A driver is set up, its devices are created, and it is unloaded.
unfoldable pub driver_life : (stub driver : ℕ) → (table : ℕ → ℕ) → List (Order × ℕ) → M (Unit {0})
driver_life stub driver table os = do
  self ← driver_new stub driver table
  self' ← create_all self os
  driver_drop self'

module _ (k : Kernel) (laws : DeviceLaws k) (x y : ℕ) where
  abbrev Owns : Log → List OwnedDevice → Log → Type 0
  Owns l devs l' = Ready devs × Owing x y (devices_of x devs) (links_of y devs) 0 l l'

  drop_devices-settles :
      (devs : List OwnedDevice) (l0 l : Log)
      → Owns l0 devs l
      → Returns (drop_devices devs k l) (λ u. Owing x y 0 0 0 l0)
  unfolding drop_devices
  drop_devices-settles [] l0 l (ready, owing) = owing
  drop_devices-settles (dev ∷ devs) l0 l (((h, extended), ready), owing) =
      let (u, l1, e, gone) =
        Returns-run (drop dev k l)
          (drop-Did k laws x y dev (record { irp_handler = h; attach_to = null }) l extended) in
      rw e (drop_devices-settles devs l0 l1 (ready, ground (arith, owing, gone)))

  -- The devices after a creation.
  abbrev grow : List OwnedDevice → Result OwnedDevice NtError → List OwnedDevice
  grow devs (ok dev) = devs ++ dev ∷ []
  grow devs (err e) = devs

  grow-Owns :
      (devs : List OwnedDevice) (h : ℕ) (r : Result OwnedDevice NtError) (l0 l l' : Log)
      → Owns l0 devs l
      → Born k laws x y h l r l'
      → Owns l0 (grow devs r) l'
  grow-Owns devs h (err e) l0 l l' (ready, owing) none_left =
      (ready, ground (arith, none_left, owing))
  grow-Owns devs h (ok dev) l0 l l' (ready, owing) (extended, made) = (
    Ready-append devs dev h ready extended,
    ground (arith, made, owing, links_of-append y devs dev, devices_of-append x devs dev),
  )

  create_one-Owns :
      (self : Driver) (o : Order) (h : ℕ) (l0 l : Log)
      → Owns l0 self.devices l
      → Returns (create_one self o h k l) (λ r. Owns l0 r.1.devices)
  unfolding create_one new_device create_device create_device_with_name
  create_one-Owns self (by_property p) h l0 l owns =
      let (r, l1, e, born) =
        Returns-run {P = Born k laws x y h l} (Device.new self.object p (some h) k l)
          (new-Born k laws x y self.object h p l) in
      let owns' : Owns l0 (grow self.devices r) l1 = grow-Owns self.devices h r l0 l l1 owns born in
      elim (Result-cases r) [
        | inr (f, bad) ↦ rw (e, bad) (subst (λ r. Owns l0 (grow self.devices r) l1) bad owns')
        | inl (dev, good) ↦ rw (e, good) (subst (λ r. Owns l0 (grow self.devices r) l1) good owns')
      ]
  create_one-Owns self (by_name name symbol_name) h l0 l owns =
      let (r, l1, e, born) =
        Returns-run {P = Born k laws x y h l} (with_name self.object name symbol_name (some h) k l)
          (with_name-Born k laws x y self.object h name symbol_name l) in
      let owns' : Owns l0 (grow self.devices r) l1 = grow-Owns self.devices h r l0 l l1 owns born in
      elim (Result-cases r) [
        | inr (f, bad) ↦ rw (e, bad) (subst (λ r. Owns l0 (grow self.devices r) l1) bad owns')
        | inl (dev, good) ↦ rw (e, good) (subst (λ r. Owns l0 (grow self.devices r) l1) good owns')
      ]

  create_all-Owns :
      (self : Driver) (os : List (Order × ℕ)) (l0 l : Log)
      → Owns l0 self.devices l
      → Returns (create_all self os k l) (λ r. Owns l0 r.devices)
  unfolding create_all
  create_all-Owns self [] l0 l owns = owns
  create_all-Owns self ((o, h) ∷ os) l0 l owns =
      let (r, l1, e, owns') =
        Returns-run {P = λ r. Owns l0 r.1.devices} (create_one self o h k l)
          (create_one-Owns self o h l0 l owns) in
      rw e (create_all-Owns r.1 os l0 l1 owns')

-- With the kernel as the laws say, a driver that is set up, creates any number of devices with handlers,
-- by property or by name, and is dropped returns. The device at each address is deleted as often as it
-- was created, and the symbolic link with its name at each address too.
pub driver_life-settles :
    (stub driver : ℕ) (table : ℕ → ℕ) (os : List (Order × ℕ)) (k : Kernel) (l : Log) (x y : ℕ)
    → DeviceLaws k
    → driver ≢ null
    → Returns (driver_life stub driver table os k l) (λ u. Owing x y 0 0 0 l)
unfolding driver_life driver_new driver_drop
driver_life-settles stub driver table os k l x y laws there =
    let self : Driver = record {
      object = driver;
      major_function = setup_dispatch_routines stub table;
      devices = [];
    } in
    let (self', l1, e, owns) =
      Returns-run {P = λ r. Owns k laws x y l r.devices} (create_all self os k l)
        (create_all-Owns k laws x y self os l l (tt, ground arith)) in
    let present : (driver == null) ≡ false = ground arith in
    rw (present, e) (drop_devices-settles k laws x y self'.devices l l1 owns)
