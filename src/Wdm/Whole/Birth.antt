-- ===== src/Wdm/Whole/Birth.antt =====
-- `OwnedDevice::new` of wdm.rs: the device that it creates, or what it takes back.
use mathlib.Core.Path.{subst}
use ksync.Base.{
  ◌∷◌, Result-cases, ◌⊎◌, ℕ, ◌≡◌, ◌≢◌, refl, ◌==◌, true, false, Bool-cases, inl, inr, null, Option,
  none, some, List, arith, Result, ok, err, ◌∙◌,
}
use ksync.Kernel.{Kernel, Log, pure, Returns, Returns-run, question}
use ksync.Kernel.Abi
use ksync.Kernel.Ledger.{is_success, one_if}
use ksync.NtStatus.{NtError, new as error_new, cvt}
use ksync.Text.{UnicodeString, utf16_from_str}
use ksync.Wdm.{DeviceProperty, get_dev_name, get_dev_symbol_name, get_type, get_characteristics}
use ksync.Wdm.Device
use ksync.Wdm.Device.{
  complete, OwnedDevice, DispatchContext, prefixed, optional_name, link, optional_link,
  write_context, give_up, ext_size, header_or_null, drop_name, drop_handler, attach, drop,
}
use ksync.Wdm.Whole.{tally, Did, names, nothing_done, DeviceLaws}

module _ (k : Kernel) (laws : DeviceLaws k) (x y : ℕ) where
  pub prefixed-Did :
      (start s : List ℕ) (l : Log) → Returns (prefixed start s k l) (λ r. Did x y nothing_done l)
  unfolding prefixed utf16_from_str error_new
  prefixed-Did start s l = grind (arith, laws.room)

  optional_name-Did :
      (s : Option (List ℕ)) (l : Log) → Returns (optional_name s k l) (λ r. Did x y nothing_done l)
  unfolding optional_name prefixed utf16_from_str error_new
  optional_name-Did none l = ground arith
  optional_name-Did (some s) l = grind (arith, laws.room)

  abbrev pub Linked : (device : ℕ) → Log → Result UnicodeString NtError → Log → Type 0
  Linked device l (ok u) l' = Did x y (tally 0 0 (one_if (u.header == y)) 0 0 0) l l'
  Linked device l (err e) l' = Did x y (tally 0 (one_if (device == x)) 0 0 0 0) l l'

  pub link-Did :
      (device : ℕ) (u : UnicodeString) (s : List ℕ) (l : Log)
      → Returns (link device u s k l) (Linked device l)
  unfolding link utf16_from_str error_new
  link-Did device u s l = grind (arith, laws.signs, laws.room)

  -- A link that was made is remembered in the result.
  abbrev pub MaybeLinked : (device : ℕ) → Log → Result (Option UnicodeString) NtError → Log → Type 0
  MaybeLinked device l (ok o) l' = Did x y (tally 0 0 (names y o) 0 0 0) l l'
  MaybeLinked device l (err e) l' = Did x y (tally 0 (one_if (device == x)) 0 0 0 0) l l'

  optional_link-Did :
      (device : ℕ) (u : Option UnicodeString) (s : Option (List ℕ)) (l : Log)
      → Returns (optional_link device u s k l) (MaybeLinked device l)
  unfolding optional_link
  optional_link-Did device u none l = ground arith
  optional_link-Did device none (some s) l = ground arith
  optional_link-Did device (some u) (some s) l =
      let (r, l', e, did) =
        Returns-run {P = Linked device l} (link device u s k l) (link-Did device u s l) in
      rw e (kept r l' did)
    where
      kept :
          (r : Result UnicodeString NtError) (l' : Log)
          → Linked device l r l'
          → Returns (question r (λ symbol. pure (ok (some symbol))) k l') (MaybeLinked device l)
      kept (ok v) l' did = did
      kept (err e) l' did = did

  pub give_up-Did :
      (u : Option UnicodeString) (h : Option ℕ) (e : NtError) (l : Log)
      → Returns
          (give_up {A = OwnedDevice} u h e k l)
          (λ r l'. (r ≡ err e) × Did x y nothing_done l l')
  unfolding give_up drop_name drop_handler
  give_up-Did none none e l = ground arith
  give_up-Did none (some h) e l = ground arith
  give_up-Did (some u) none e l = ground arith
  give_up-Did (some u) (some h) e l = ground arith

  abbrev creation : ℕ → Option UnicodeString → DeviceProperty → Abi.Call
  creation driver name p =
      Abi.io_create_device driver 24 (header_or_null name) (get_type p) (get_characteristics p)

  -- A device with a handler is made, with its extension, or whatever was created is deleted.
  abbrev pub Born : ℕ → Log → Result OwnedDevice NtError → Log → Type 0
  Born h l (ok self) l' =
      (self.ext ≡ some (record { irp_handler = h; attach_to = null }))
      × Did x y (tally (one_if (self.object == x)) 0 (names y self.symbol_name) 0 0 0) l l'
  Born h l (err e) l' =
      (Did x y nothing_done l l')
      ⊎ ((device : ℕ) × Did x y (tally (one_if (device == x)) (one_if (device == x)) 0 0 0 0) l l')

  -- The same from the log after the creation.
  abbrev pub Completed : (h device : ℕ) → Log → Result OwnedDevice NtError → Log → Type 0
  Completed h device l (ok self) l' =
      (self.object ≡ device)
      × (self.ext ≡ some (record { irp_handler = h; attach_to = null }))
      × Did x y (tally 0 0 (names y self.symbol_name) 0 0 0) l l'
  Completed h device l (err e) l' = Did x y (tally 0 (one_if (device == x)) 0 0 0 0) l l'

  complete-Completed :
      (device extension h : ℕ) (name : Option UnicodeString) (p : DeviceProperty) (l : Log)
      → device ≢ null
      → extension ≢ null
      → Returns (complete device extension name p (some h) k l) (Completed h device l)
  unfolding complete write_context
  complete-Completed device extension h name p l there extended =
      let (o, l', e, linked) =
        Returns-run {P = MaybeLinked device l}
          (optional_link device name (get_dev_symbol_name p) k l)
          (optional_link-Did device name (get_dev_symbol_name p) l) in
      elim (Result-cases o) [
        | inr (f, bad) ↦
            let undone : Did x y (tally 0 (one_if (device == x)) 0 0 0 0) l l' =
              subst (λ r. MaybeLinked device l r l') bad linked in
            let (r, l'', e', (same, dropped)) =
              Returns-run {P = λ r l''. (r ≡ err f) × Did x y nothing_done l' l''}
                (give_up {A = OwnedDevice} name (some h) f k l') (give_up-Did name (some h) f l') in
            rw (e, bad, e', same) (ground (arith, undone, dropped))
        | inl (symbol, made) ↦
            let done_link : Did x y (tally 0 0 (names y symbol) 0 0 0) l l' =
              subst (λ r. MaybeLinked device l r l') made linked in
            let present : (device == null) ≡ false = ground arith in
            let written : (extension == null) ≡ false = ground arith in
            rw (e, made, written, present) (refl, refl, done_link)
      ]

  pub join-Born :
      (h device : ℕ) (r : Result OwnedDevice NtError) (l l1 l2 : Log)
      → Did x y (tally (one_if (device == x)) 0 0 0 0 0) l l1
      → Completed h device l1 r l2
      → Born h l r l2
  join-Born h device (ok self) l l1 l2 created (same, extended, linked) =
      (extended, ground (arith, created, linked, same))
  join-Born h device (err e) l l1 l2 created undone = inr (device, ground (arith, created, undone))

  pub new-Born :
      (driver h : ℕ) (p : DeviceProperty) (l : Log)
      → Returns (Device.new driver p (some h) k l) (Born h l)
  unfolding Device.new cvt error_new ext_size
  new-Born driver h p l =
      let (n, l1, e1, named) =
        Returns-run {P = λ r. Did x y nothing_done l} (optional_name (get_dev_name p) k l)
          (optional_name-Did (get_dev_name p) l) in
      elim (Result-cases n) [
        | inr (e, bad) ↦
            let (r, l2, e2, (same, dropped)) =
              Returns-run {P = λ r l'. (r ≡ err e) × Did x y nothing_done l1 l'}
                (give_up {A = OwnedDevice} none (some h) e k l1) (give_up-Did none (some h) e l1) in
            rw (e1, bad, e2, same) (inl (ground (arith, named, dropped)))
        | inl (name, good) ↦
            let d : Abi.Reply = k l1 (creation driver name p) in
            let l2 : Log = Abi.event (creation driver name p) d ∷ l1 in
            elim (Bool-cases (d.ret == 0)) [
              | inr failed ↦
                  let e : NtError = record { code = d.ret } in
                  let (r, l3, e3, (same, dropped)) =
                    Returns-run {P = λ r l'. (r ≡ err e) × Did x y nothing_done l2 l'}
                      (give_up {A = OwnedDevice} name (some h) e k l2)
                      (give_up-Did name (some h) e l2) in
                  let plain : is_success d.ret ≡ false = laws.create_plain l1 _ _ _ _ _ ∙ failed in
                  rw (e1, good, failed, e3, same) (inl (ground (arith, named, dropped, plain)))
              | inl created ↦
                  let plain : is_success d.ret ≡ true = laws.create_plain l1 _ _ _ _ _ ∙ created in
                  let (r, l3, e3, completed) =
                    Returns-run {P = Completed h d.out l2}
                      (complete d.out d.aux name p (some h) k l2)
                      (complete-Completed d.out d.aux h name p l2
                        (laws.create_object l1 _ _ _ _ _ plain)
                        (laws.create_extension l1 _ _ _ _ _ plain (omega arith))) in
                  rw (e1, good, created, e3)
                    (join-Born h d.out r l l2 l3 (ground (arith, named, plain)) completed)
            ]
      ]
