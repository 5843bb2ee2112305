-- ===== src/Wdm/Delivery.antt =====
-- The whole path of a request in wdm.rs: the table that `Driver::new` sets up, the extension that
-- `OwnedDevice::new` and `attach` write, and the dispatch routine. The IO manager, which looks the
-- routine up by the number of the major function and calls it, is the kernel's.
use mathlib.Core.Path.{subst}
use ksync.Base.{
  ℕ, ◌≡◌, ◌≢◌, ◌≤◌, ◌<◌, ◌==◌, refl, true, false, if◌then◌else◌, null, Option, none, some, arith,
  inl, inr, Bool-cases, Result, ok, err, Result-cases,
}
use ksync.Kernel.{Kernel, Log, M, pure, Returns, Returns-run, ◌>>=◌}
use ksync.Kernel.Abi
use ksync.NtStatus.{NtError, cvt, new as error_new}
use ksync.Wdm.{DeviceProperty}
use ksync.Wdm.Device
use ksync.Wdm.Device.{OwnedDevice, DispatchContext, attach}
use ksync.Wdm.Table.{
  Driver, driver_new, create_device, setup_dispatch_routines, setup_dispatch_routines_misses_last,
  irp_mj_maximum_function,
}
use ksync.Wdm.Request.{Irp, irp_dispatch_stub, Answered, expected, irp_dispatch_stub-Answered}
use ksync.Wdm.Accepted.{Accepts, IsOk, new-IsOk}
use ksync.Wdm.Whole.{DeviceLaws}
use ksync.Wdm.Whole.Birth.{new-Born, Born}

-- The dispatch handler in the box at an address, and a routine of the kernel or of another driver at
-- an address.
abbrev pub Handlers : Type 0
Handlers = ℕ → Irp → Result ℕ NtError

abbrev pub Routines : Type 0
Routines = ℕ → Irp → M (ℕ × Irp)

-- The handler that the stub finds through the extension of the device.
unfoldable pub handler_of : Handlers → OwnedDevice → Option (Irp → Result ℕ NtError)
handler_of handlers dev = elim dev.ext [ none ↦ none | some c ↦ some (handlers c.irp_handler) ]

-- The IO manager calls the routine of the major function.
unfoldable pub deliver :
    Handlers → Routines → (stub : ℕ) → Driver → OwnedDevice → (major : ℕ) → Irp → M (ℕ × Irp)
unfolding handler_of irp_dispatch_stub
deliver handlers others stub driver dev major irp =
    let routine : ℕ = driver.major_function major in
    if routine == stub then irp_dispatch_stub (handler_of handlers dev) irp else others routine irp

-- A driver starts, creates a device with the handler in the box at `h`, and attaches it. The result
-- is none when the creation failed.
unfoldable pub start :
    (stub address target : ℕ)
    → (table : ℕ → ℕ) → DeviceProperty
    → (h : ℕ) → M (Option (Driver × OwnedDevice))
start stub address target table p h = do
  driver ← driver_new stub address table
  r ← create_device driver p (some h)
  elim r.0 [ err e ↦ pure none | ok dev ↦ (do q ← attach dev target; pure (some (r.1, q.1))) ]

-- The table is the one set up, and the extension names the handler; or the kernel may refuse.
abbrev pub Serves : Kernel → (stub : ℕ) → (ℕ → ℕ) → (h : ℕ) → Option (Driver × OwnedDevice) → Type 0
Serves k stub table h none = ¬ Accepts k
Serves k stub table h (some (driver, dev)) =
    (driver.major_function ≡ setup_dispatch_routines stub table)
    × ((c : DispatchContext) × (dev.ext ≡ some c) × (c.irp_handler ≡ h))

-- `attach` writes the extension, and leaves the handler in it.
abbrev Keeps : (h : ℕ) → Result (Unit {0}) NtError × OwnedDevice → Log → Type 0
Keeps h q l' = (c : DispatchContext) × (q.1.ext ≡ some c) × (c.irp_handler ≡ h)

attach-Keeps :
    (dev : OwnedDevice) (h target : ℕ) (k : Kernel) (l : Log)
    → dev.ext ≡ some (record { irp_handler = h; attach_to = null })
    → Returns (attach dev target k l) (Keeps h)
unfolding attach cvt error_new
attach-Keeps dev h target k l extended =
    let r : Abi.Reply = k l (Abi.io_attach_device_to_device_stack target dev.object) in
    let c : DispatchContext = record { irp_handler = h; attach_to = r.out } in
    elim (Bool-cases (r.ret == 0)) [
      | inl good ↦ rw (extended, good) (c, refl, refl)
      | inr bad ↦ rw (extended, bad) (c, refl, refl)
    ]

start-Serves :
    (stub address target : ℕ) (table : ℕ → ℕ) (p : DeviceProperty) (h : ℕ) (k : Kernel) (l : Log)
    → DeviceLaws k
    → address ≢ null
    → Returns (start stub address target table p h k l) (λ r _. Serves k stub table h r)
unfolding start driver_new create_device
start-Serves stub address target table p h k l laws there =
    let present : (address == null) ≡ false = ground arith in
    let (r, l1, e1, born) =
      Returns-run {P = Born k laws 0 0 h l} (Device.new address p (some h) k l)
        (new-Born k laws 0 0 address h p l) in
    elim (Result-cases r) [
      | inr (e, bad) ↦
          rw (present, e1, bad)
            (λ accepts.
              subst (λ r. IsOk r l1) bad
                (subst (λ run. Returns run IsOk) e1 (new-IsOk k laws accepts address p h l)))
      | inl (dev, good) ↦
          let (extended, made) : Born k laws 0 0 h l (ok dev) l1 =
            subst (λ r. Born k laws 0 0 h l r l1) good born in
          let (q, l2, e2, kept) =
            Returns-run {P = Keeps h} (attach dev target k l1)
              (attach-Keeps dev h target k l1 extended) in
          rw (present, e1, good, e2) (refl, kept)
    ]

-- What becomes of a request to the device of `start`, if there is one: the handler at `h` answers it, or, for the last
-- major function, the routine that stood in the table before.
abbrev pub Delivered :
    Handlers
    → Routines
    → (stub : ℕ) → (ℕ → ℕ)
    → (h major : ℕ) → Irp
    → (started k : Kernel) → Log
    → Option (Driver × OwnedDevice)
    → Type 0
Delivered handlers others stub table h major irp started k l none = ¬ Accepts started
Delivered handlers others stub table h major irp started k l (some (driver, dev)) =
    Returns (deliver handlers others stub driver dev major irp k l)
      (λ a l'. Answered irp l a l' × ((a.0, a.1.information) ≡ expected (some (handlers h)) irp))
    × (deliver handlers others stub driver dev irp_mj_maximum_function irp k l
        ≡ others (table irp_mj_maximum_function) irp k l)

-- Over a kernel as the laws say, a driver whose table holds no stub yet starts and creates and
-- attaches a device with a handler. The creation fails only if the kernel may refuse a device or a
-- symbolic link. If it succeeds, every later request with a major function below the last, whose
-- stack location is in range, gets the handler's own answer, is completed once unless that is
-- STATUS_PENDING, and then not at all; and a request for the last major function goes to the routine
-- that the kernel put there, not to the handler.
pub start-Delivered :
    (handlers : Handlers) (others : Routines) (stub address target : ℕ) (table : ℕ → ℕ)
    (p : DeviceProperty) (h major : ℕ) (irp : Irp) (k k' : Kernel) (l later : Log)
    → DeviceLaws k
    → address ≢ null
    → table 0 ≢ stub
    → table irp_mj_maximum_function ≢ stub
    → major < irp_mj_maximum_function
    → irp.current_location ≤ irp.stack_count
    → Returns
        (start stub address target table p h k l)
        (λ r _. Delivered handlers others stub table h major irp k k' later r)
unfolding deliver handler_of
start-Delivered handlers others stub address target table p h major irp k k' l later laws there
      fresh last below inside =
    let (r, l1, e, serves) =
      Returns-run {P = λ r _. Serves k stub table h r} (start stub address target table p h k l)
        (start-Serves stub address target table p h k l laws there) in
    rw e (each r serves)
  where
    each :
        (r : Option (Driver × OwnedDevice))
        → Serves k stub table h r
        → Delivered handlers others stub table h major irp k k' later r
    each none refused = refused
    each (some (driver, dev)) (set_up, (c, extended, owner)) =
        let hooked : driver.major_function major ≡ stub =
          rw set_up (ground (arith, setup_dispatch_routines_misses_last stub table major fresh)) in
        let kept : driver.major_function irp_mj_maximum_function ≡ table irp_mj_maximum_function =
          rw set_up (
            ground (
              arith,
              setup_dispatch_routines_misses_last stub table irp_mj_maximum_function fresh,
            )) in
        let ours : (stub == stub) ≡ true = ground arith in
        let other : (table irp_mj_maximum_function == stub) ≡ false = ground arith in
        (
          rw (hooked, ours, extended, owner)
              (irp_dispatch_stub-Answered (some (handlers h)) irp k' later inside),
          rw (kept, other) refl,
        )
