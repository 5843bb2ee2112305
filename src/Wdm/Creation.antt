-- ===== src/Wdm/Creation.antt =====
-- `OwnedDevice::new` of wdm.rs: devices that it creates, and devices that it leaves behind.
use ksync.Base.{ℕ, ◌+◌, ◌≡◌, ◌≢◌, ◌==◌, null, List, arith, Result, ok, err}
use ksync.Kernel.{Kernel, Log, Returns}
use ksync.Kernel.Abi
use ksync.Kernel.Ledger.{one_if, total, creates_device, deletes_device, creates_link}
use ksync.NtStatus.{NtError, new as error_new}
use ksync.Object.Balance.{NtSuccess}
use ksync.Text.{UnicodeString, utf16_from_str}
use ksync.Utils.{paged_pool}
use ksync.Wdm.Device.{link}
use ksync.Mutex.Locked.{status_insufficient_resources}

-- From `l` to `l'` the device at `x` and the symbolic link with its name at `y` are created so often,
-- and the device deleted so often.
abbrev pub Devices : (x y : ℕ) → ℕ → ℕ → ℕ → Log → Log → Type 0
Devices x y c s d l l' =
    (total (creates_device x) l' ≡ total (creates_device x) l + c)
    × (total (creates_link y) l' ≡ total (creates_link y) l + s)
    × (total (deletes_device x) l' ≡ total (deletes_device x) l + d)

-- The link to a device that was just created is made, or the device is deleted again.
abbrev pub Linked : (x y device : ℕ) → Log → Result UnicodeString NtError → Log → Type 0
Linked x y device l (ok symbol) l' = Devices x y 0 (one_if (symbol.header == y)) 0 l l'
Linked x y device l (err e) l' = Devices x y 0 0 (one_if (device == x)) l l'

-- With memory for its name, and `nt_success` telling by the sign bit, a symbolic link is made and
-- no device deleted, or none is made and the device is deleted.
pub link-Linked :
    (x y device : ℕ) (name : UnicodeString) (s : List ℕ) (k : Kernel) (l : Log)
    → NtSuccess k
    → ((h : Log) (n t : ℕ) → (k h (Abi.ex_allocate_pool paged_pool n t)).ret ≢ null)
    → Returns (link device name s k l) (Linked x y device l)
unfolding link utf16_from_str error_new
link-Linked x y device name s k l signs room = grind (arith, signs, room)

-- Without memory for the name of the link, STATUS_INSUFFICIENT_RESOURCES is returned, no link is
-- made and the device is not deleted.
pub link_no_memory-leak :
    (x y device : ℕ) (name : UnicodeString) (s : List ℕ) (k : Kernel) (l : Log)
    → ((h : Log) (n t : ℕ) → (k h (Abi.ex_allocate_pool paged_pool n t)).ret ≡ null)
    → Returns
        (link device name s k l)
        λ r l'. (r ≡ err (record { code = status_insufficient_resources })) × Devices x y 0 0 0 l l'
unfolding link utf16_from_str error_new
link_no_memory-leak x y device name s k l full = grind (arith, full)
