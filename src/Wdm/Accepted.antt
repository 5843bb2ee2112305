-- ===== src/Wdm/Accepted.antt =====
-- wdm.rs: `OwnedDevice::new` where the kernel refuses nothing.
use mathlib.Core.Path.{subst}
use ksync.Base.{
  ℕ, inl, inr, Result-cases, null, ◌∷◌, ◌≢◌, ◌==◌, if◌then◌else◌, ◌≡◌, ◌*◌, ◌+◌, ◌++◌, length, true,
  Option, none, some, List, arith, Result, ok, err,
}
use ksync.Kernel.{
  M, call, emit, Kernel, Log, Returns, Returns-run, and_then-Returns, question, pure, ◌>>=◌, ◌>>◌,
}
use ksync.Kernel.Abi
use ksync.Kernel.Ledger.{is_success}
use ksync.NtStatus.{cvt, nt_success, status_success, new as error_new}
use ksync.Text.{UnicodeString, utf16_from_str, encode_utf16, rust_paged_tag}
use ksync.Wdm.{DeviceProperty, get_dev_name, get_dev_symbol_name, get_type, get_characteristics}
use ksync.Wdm.Device
use ksync.Wdm.Device.{
  OwnedDevice, device_prefix, dos_devices_prefix, prefixed, optional_name, link, optional_link,
  write_context, complete, header_or_null, ext_size,
}
use ksync.Wdm.Whole.{DeviceLaws}

-- Every device and every symbolic link that is asked for is created.
pub record Accepts (k : Kernel) : Type 0 where
  pub devices : (l : Log) (d s n t c : ℕ) → (k l (Abi.io_create_device d s n t c)).ret ≡ 0
  pub links : (l : Log) (s n : ℕ) → is_success (k l (Abi.io_create_symbolic_link s n)).ret ≡ true

abbrev pub IsOk : {A E : Type 0} → Result A E → Log → Type 0
IsOk (ok a) l = Unit
IsOk (err e) l = ⊥

-- A step that succeeds, followed by what is done with its value.
ok-then :
    {A B E : Type 0} (Q : B → Log → Type 0) (m : M (Result A E)) (f : Result A E → M B) (k : Kernel)
    (l : Log)
    → Returns (m k l) IsOk
    → ((a : A) (l1 : Log) → Returns (f (ok a) k l1) Q)
    → Returns ((m >>= f) k l) Q
ok-then {A} {B} {E} Q m f k l good next = and_then-Returns {P = IsOk} Q (m k l) f k good each
  where
    each : (r : Result A E) (l1 : Log) → IsOk r l1 → Returns (f r k l1) Q
    each (ok a) l1 h = next a l1
    each (err e) l1 h = absurd h

module _ (k : Kernel) (laws : DeviceLaws k) (accepts : Accepts k) where
  prefixed-IsOk : (start s : List ℕ) (l : Log) → Returns (prefixed start s k l) IsOk
  unfolding prefixed utf16_from_str
  prefixed-IsOk start s l =
      ground (arith, laws.room l (length (encode_utf16 (start ++ s)) * 2 + 16) rust_paged_tag)

  optional_name-IsOk : (name : Option (List ℕ)) (l : Log) → Returns (optional_name name k l) IsOk
  unfolding optional_name
  optional_name-IsOk none l = tt
  optional_name-IsOk (some s) l =
      ok-then IsOk (prefixed device_prefix s) (λ r. question r (λ u. pure (ok (some u)))) k l
        (prefixed-IsOk device_prefix s l) (λ u l1. tt)

  link-IsOk :
      (device : ℕ) (name : UnicodeString) (s : List ℕ) (l : Log)
      → Returns (link device name s k l) IsOk
  unfolding link
  link-IsOk device name s l =
      ok-then IsOk (prefixed dos_devices_prefix s)
        (λ r. question r (λ symbol. do
          c ← call (Abi.io_create_symbolic_link symbol.header name.header)
          fine ← nt_success c.ret
          if fine then pure (ok symbol) else (do
            emit (Abi.io_delete_device device)
            e ← error_new c.ret
            emit (Abi.box_free symbol.header)
            pure (err e))))
        k l (prefixed-IsOk dos_devices_prefix s l)
        (λ symbol l1.
          let c = Abi.io_create_symbolic_link symbol.header name.header in
          let l2 : Log = Abi.event c (k l1 c) ∷ l1 in
          ground (arith, accepts.links l1 symbol.header name.header, laws.signs l2 (k l1 c).ret))

  optional_link-IsOk :
      (device : ℕ) (name : Option UnicodeString) (s : Option (List ℕ)) (l : Log)
      → Returns (optional_link device name s k l) IsOk
  unfolding optional_link
  optional_link-IsOk device name none l = tt
  optional_link-IsOk device none (some s) l = tt
  optional_link-IsOk device (some u) (some s) l =
      ok-then IsOk (link device u s) (λ r. question r (λ symbol. pure (ok (some symbol)))) k l
        (link-IsOk device u s l) (λ symbol l1. tt)

  complete-IsOk :
      (device extension : ℕ) (name : Option UnicodeString) (p : DeviceProperty) (h : ℕ) (l : Log)
      → device ≢ null
      → extension ≢ null
      → Returns (complete device extension name p (some h) k l) IsOk
  unfolding complete write_context
  complete-IsOk device extension name p h l there extended =
      let (r, l1, e, fine) =
        Returns-run {P = IsOk} (optional_link device name (get_dev_symbol_name p) k l)
          (optional_link-IsOk device name (get_dev_symbol_name p) l) in
      elim (Result-cases r) [
        | inr (x, bad) ↦ absurd (subst (λ r. IsOk r l1) bad fine)
        | inl (symbol, good) ↦ rw (e, good) (ground arith)
      ]

  pub new-IsOk :
      (driver : ℕ) (p : DeviceProperty) (h : ℕ) (l : Log)
      → Returns (Device.new driver p (some h) k l) IsOk
  unfolding Device.new cvt ext_size
  new-IsOk driver p h l =
      let (r, l1, e, fine) =
        Returns-run {P = IsOk} (optional_name (get_dev_name p) k l)
          (optional_name-IsOk (get_dev_name p) l) in
      elim (Result-cases r) [
        | inr (x, bad) ↦ absurd (subst (λ r. IsOk r l1) bad fine)
        | inl (name, good) ↦
            let size = ext_size (some h) in
            let header = header_or_null name in
            let c = Abi.io_create_device driver size header (get_type p) (get_characteristics p) in
            let l2 : Log = Abi.event c (k l1 c) ∷ l1 in
            let accepted : (k l1 c).ret ≡ 0 =
              accepts.devices l1 driver size header (get_type p) (get_characteristics p) in
            let fine1 : is_success (k l1 c).ret ≡ true = ground arith in
            let plain : ((k l1 c).ret == status_success) ≡ true = ground arith in
            rw (e, good, plain)
              (complete-IsOk (k l1 c).out (k l1 c).aux name p h l2
                (laws.create_object l1 driver size header (get_type p) (get_characteristics p)
                  fine1)
                (laws.create_extension l1 driver size header (get_type p) (get_characteristics p)
                  fine1 (omega arith)))
      ]
