-- ===== src/Wdm/Fleet/Books.antt =====
-- What the devices of a driver of wdm.rs owe: devices, symbolic links and attachments.
use ksync.Base.{◌++◌, [], ◌∷◌, List, null, ◌==◌, ℕ, ◌+◌, ◌≡◌, some, arith}
use ksync.Kernel.{Log}
use ksync.Kernel.Ledger.{
  one_if, total, creates_device, deletes_device, creates_link, deletes_link, attaches, detaches,
}
use ksync.Wdm.Device.{OwnedDevice}
use ksync.Wdm.Whole.{names}

-- From `l` to `l'` the device at `x` is deleted and the link with its name at `y` deleted as often as
-- they were made, and as many attachments undone as were made, but for these.
pub record Owing (x y : ℕ) (devices links attached : ℕ) (l l' : Log) : Type 0 where
  pub of_devices :
      total (creates_device x) l' + total (deletes_device x) l
      ≡ total (creates_device x) l + total (deletes_device x) l' + devices
  pub of_links :
      total (creates_link y) l' + total (deletes_link y) l
      ≡ total (creates_link y) l + total (deletes_link y) l' + links
  pub of_attached :
      total attaches l' + total detaches l ≡ total attaches l + total detaches l' + attached

abbrev pub devices_of : (x : ℕ) → List OwnedDevice → ℕ
devices_of x [] = 0
devices_of x (dev ∷ devs) = one_if (dev.object == x) + devices_of x devs

abbrev pub links_of : (y : ℕ) → List OwnedDevice → ℕ
links_of y [] = 0
links_of y (dev ∷ devs) = names y dev.symbol_name + links_of y devs

-- Each device has its extension, and is attached to nothing.
abbrev pub Ready : List OwnedDevice → Type 0
Ready [] = Unit
Ready (dev ∷ devs) =
    ((h : ℕ) × (dev.ext ≡ some (record { irp_handler = h; attach_to = null }))) × Ready devs

pub links_of-append :
    (y : ℕ) (devs : List OwnedDevice) (dev : OwnedDevice)
    → links_of y (devs ++ dev ∷ []) ≡ links_of y devs + names y dev.symbol_name
links_of-append y [] dev = omega arith
links_of-append y (d ∷ devs) dev = omega (arith, links_of-append y devs dev)

pub devices_of-append :
    (x : ℕ) (devs : List OwnedDevice) (dev : OwnedDevice)
    → devices_of x (devs ++ dev ∷ []) ≡ devices_of x devs + one_if (dev.object == x)
devices_of-append x [] dev = omega arith
devices_of-append x (d ∷ devs) dev = omega (arith, devices_of-append x devs dev)

pub Ready-append :
    (devs : List OwnedDevice) (dev : OwnedDevice) (h : ℕ)
    → Ready devs
    → dev.ext ≡ some (record { irp_handler = h; attach_to = null })
    → Ready (devs ++ dev ∷ [])
Ready-append [] dev h ready e = ((h, e), tt)
Ready-append (d ∷ devs) dev h (first, ready) e = (first, Ready-append devs dev h ready e)
