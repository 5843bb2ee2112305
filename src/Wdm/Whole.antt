-- ===== src/Wdm/Whole.antt =====
-- `OwnedDevice` of wdm.rs through its whole life: created, attached, dropped.
pub mod Birth
pub mod ByName
use mathlib.Core.Path.{subst}
use ksync.Base.{
  ◌∷◌, Result-cases, ◌⊎◌, ℕ, ◌+◌, ◌≡◌, ◌≢◌, refl, ◌==◌, not, true, false, Bool-cases, inl, inr,
  null, Option, none, some, is_some, List, arith, Result, ok, err, ◌∙◌,
}
use ksync.Kernel.{Kernel, Log, pure, Returns, Returns-run, question}
use ksync.Kernel.Abi
use ksync.Kernel.Ledger.{
  total, creates_device, deletes_device, creates_link, deletes_link, attaches, detaches, is_success,
  one_if,
}
use ksync.NtStatus.{NtError, new as error_new, cvt}
use ksync.Object.Balance.{NtSuccess}
use ksync.Text.{UnicodeString, utf16_from_str}
use ksync.Utils.{paged_pool}
use ksync.Wdm.{DeviceProperty, get_dev_name, get_dev_symbol_name, get_type, get_characteristics}
use ksync.Wdm.Device
use ksync.Wdm.Device.{
  OwnedDevice, DispatchContext, prefixed, optional_name, link, optional_link, write_context,
  give_up, ext_size, header_or_null, drop_name, drop_handler, attach, drop,
}

-- What the calls from one log to a later one did: how often the device at `x` was created and deleted,
-- how often the link with its name at `y` was created and deleted, attachments made and undone.
pub record Tally : Type 0 where
  pub created : ℕ
  pub deleted : ℕ
  pub linked : ℕ
  pub unlinked : ℕ
  pub attached : ℕ
  pub detached : ℕ

abbrev pub tally : (created deleted linked unlinked attached detached : ℕ) → Tally
tally c d s t a b = record {
  created = c;
  deleted = d;
  linked = s;
  unlinked = t;
  attached = a;
  detached = b;
}

pub record Did (x y : ℕ) (t : Tally) (l l' : Log) : Type 0 where
  pub created : total (creates_device x) l' ≡ total (creates_device x) l + t.created
  pub deleted : total (deletes_device x) l' ≡ total (deletes_device x) l + t.deleted
  pub linked : total (creates_link y) l' ≡ total (creates_link y) l + t.linked
  pub unlinked : total (deletes_link y) l' ≡ total (deletes_link y) l + t.unlinked
  pub attached : total attaches l' ≡ total attaches l + t.attached
  pub detached : total detaches l' ≡ total detaches l + t.detached

abbrev pub nothing_done : Tally
nothing_done = tally 0 0 0 0 0 0

-- The kernel has memory for names, tells success by the sign bit, answers the creation of a device with
-- STATUS_SUCCESS or an error, on success hands out a device, with an extension if one of some size is
-- asked for, and hands out the device below exactly when an attachment succeeds.
pub record DeviceLaws (k : Kernel) : Type 0 where
  pub signs : NtSuccess k
  pub room : (l : Log) (n t : ℕ) → (k l (Abi.ex_allocate_pool paged_pool n t)).ret ≢ null
  pub create_plain :
      (l : Log) (d s n t c : ℕ)
      → is_success (k l (Abi.io_create_device d s n t c)).ret
        ≡ ((k l (Abi.io_create_device d s n t c)).ret == 0)
  pub create_object :
      (l : Log) (d s n t c : ℕ)
      → is_success (k l (Abi.io_create_device d s n t c)).ret ≡ true
      → (k l (Abi.io_create_device d s n t c)).out ≢ null
  pub create_extension :
      (l : Log) (d s n t c : ℕ)
      → is_success (k l (Abi.io_create_device d s n t c)).ret ≡ true
      → s ≢ 0
      → (k l (Abi.io_create_device d s n t c)).aux ≢ null
  pub attach_object :
      (l : Log) (t d : ℕ)
      → is_success (k l (Abi.io_attach_device_to_device_stack t d)).ret
        ≡ not ((k l (Abi.io_attach_device_to_device_stack t d)).out == null)

-- Whether a name, if there is one, is at `y`.
abbrev pub names : (y : ℕ) → Option UnicodeString → ℕ
names y none = 0
names y (some u) = one_if (u.header == y)

module _ (k : Kernel) (laws : DeviceLaws k) (x y : ℕ) where
  -- What `attach` leaves of a device that was attached to nothing.
  abbrev pub Attached : OwnedDevice → Log → Result (Unit {0}) NtError × OwnedDevice → Log → Type 0
  Attached self l (q, self') l' =
      (c : DispatchContext) × (self'.ext ≡ some c)
      × (self'.symbol_name ≡ self.symbol_name)
      × (self'.object ≡ self.object)
      × Did x y (tally 0 0 0 0 (one_if (not (c.attach_to == null))) 0) l l'

  pub attach-Attached :
      (self : OwnedDevice) (c : DispatchContext) (target : ℕ) (l : Log)
      → self.ext ≡ some c
      → c.attach_to ≡ null
      → Returns (attach self target k l) (Attached self l)
  unfolding attach cvt error_new
  attach-Attached self c target l e free =
      let r : Abi.Reply = k l (Abi.io_attach_device_to_device_stack target self.object) in
      let object : is_success r.ret ≡ not (r.out == null) =
        laws.attach_object l target self.object in
      elim (Bool-cases (r.ret == 0)) [
        | inl good ↦
            rw (e, free, good)
              (record c { attach_to = r.out }, refl, refl, refl, ground (arith, object))
        | inr bad ↦
            rw (e, free, bad)
              (record c { attach_to = r.out }, refl, refl, refl, ground (arith, object))
      ]

  pub drop-Did :
      (self : OwnedDevice) (c : DispatchContext) (l : Log)
      → self.ext ≡ some c
      → Returns (drop self k l) λ _.
        Did x y
          (tally 0
            (one_if (self.object == x))
            0
            (names y self.symbol_name)
            0
            (one_if (not (c.attach_to == null))))
          l
  unfolding drop
  drop-Did self c l e = ground arith
