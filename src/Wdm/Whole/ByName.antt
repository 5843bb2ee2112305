-- ===== src/Wdm/Whole/ByName.antt =====
-- `OwnedDevice::with_name` of wdm.rs: the device that it creates, or what it takes back.
use mathlib.Core.Path.{subst}
use ksync.Base.{
  ℕ, ◌≡◌, ◌≢◌, refl, ◌∙◌, ◌==◌, ◌∷◌, [], List, true, false, null, Option, none, some, Bool-cases,
  inl, inr, arith, err, Result-cases,
}
use ksync.Kernel.{Kernel, Log, Returns, Returns-run}
use ksync.Kernel.Abi
use ksync.Kernel.Ledger.{is_success, one_if}
use ksync.NtStatus.{NtError, new as error_new, cvt}
use ksync.Text.{UnicodeString}
use ksync.Wdm.{file_device_unknown, file_device_secure_open}
use ksync.Wdm.Device.{
  OwnedDevice, device_prefix, prefixed, link, give_up, write_context, ext_size, drop_name,
  drop_handler,
}
use ksync.Wdm.Named.{maybe_link, finish, with_name}
use ksync.Wdm.Whole.{Did, names, tally, nothing_done, DeviceLaws}
use ksync.Wdm.Whole.Birth.{
  prefixed-Did, Linked, link-Did, MaybeLinked, give_up-Did, Born, Completed, join-Born,
}

module _ (k : Kernel) (laws : DeviceLaws k) (x y : ℕ) where
  maybe_link-Did :
      (device : ℕ) (u : UnicodeString) (s : Option (List ℕ)) (l : Log)
      → Returns (maybe_link device u s k l) (MaybeLinked k laws x y device l)
  unfolding maybe_link
  maybe_link-Did device u none l = ground arith
  maybe_link-Did device u (some s) l =
      let (r, l', e, did) =
        Returns-run {P = Linked k laws x y device l} (link device u s k l)
          (link-Did k laws x y device u s l) in
      elim (Result-cases r) [
        | inl (v, good) ↦
            let made : Did x y (tally 0 0 (one_if (v.header == y)) 0 0 0) l l' =
              subst (λ r. Linked k laws x y device l r l') good did in
            rw (e, good) made
        | inr (f, bad) ↦
            let undone : Did x y (tally 0 (one_if (device == x)) 0 0 0 0) l l' =
              subst (λ r. Linked k laws x y device l r l') bad did in
            rw (e, bad) undone
      ]

  finish-Completed :
      (device extension h : ℕ) (u : UnicodeString) (s : Option (List ℕ)) (l : Log)
      → device ≢ null
      → extension ≢ null
      → Returns (finish device extension u s (some h) k l) (Completed k laws x y h device l)
  unfolding finish write_context drop_name drop_handler
  finish-Completed device extension h u s l there extended =
      let present : (device == null) ≡ false = ground arith in
      let written : (extension == null) ≡ false = ground arith in
      let (o, l', e, linked) =
        Returns-run {P = MaybeLinked k laws x y device l} (maybe_link device u s k l)
          (maybe_link-Did device u s l) in
      elim (Result-cases o) [
        | inr (f, bad) ↦
            let undone : Did x y (tally 0 (one_if (device == x)) 0 0 0 0) l l' =
              subst (λ r. MaybeLinked k laws x y device l r l') bad linked in
            rw (written, e, bad) (ground (arith, undone))
        | inl (symbol, made) ↦
            let done_link : Did x y (tally 0 0 (names y symbol) 0 0 0) l l' =
              subst (λ r. MaybeLinked k laws x y device l r l') made linked in
            rw (written, e, made, present) (refl, refl, done_link)
      ]

  pub with_name-Born :
      (driver h : ℕ) (name : List ℕ) (s : Option (List ℕ)) (l : Log)
      → Returns (with_name driver name s (some h) k l) (Born k laws x y h l)
  unfolding with_name cvt error_new ext_size drop_handler
  with_name-Born driver h [] s l = inl (ground arith)
  with_name-Born driver h (c ∷ cs) s l =
      let (n, l1, e1, named) =
        Returns-run {P = λ r. Did x y nothing_done l} (prefixed device_prefix (c ∷ cs) k l)
          (prefixed-Did k laws x y device_prefix (c ∷ cs) l) in
      elim (Result-cases n) [
        | inr (e, bad) ↦
            let (r, l2, e2, (same, dropped)) =
              Returns-run {P = λ r l'. (r ≡ err e) × Did x y nothing_done l1 l'}
                (give_up {A = OwnedDevice} none (some h) e k l1)
                (give_up-Did k laws x y none (some h) e l1) in
            rw (e1, bad, e2, same) (inl (ground (arith, named, dropped)))
        | inl (u, good) ↦
            let create : Abi.Call =
              Abi.io_create_device driver 24 u.header file_device_unknown file_device_secure_open in
            let d : Abi.Reply = k l1 create in
            let l2 : Log = Abi.event create d ∷ l1 in
            elim (Bool-cases (d.ret == 0)) [
              | inr failed ↦
                  let e : NtError = record { code = d.ret } in
                  let (r, l3, e3, (same, dropped)) =
                    Returns-run {P = λ r l'. (r ≡ err e) × Did x y nothing_done l2 l'}
                      (give_up {A = OwnedDevice} (some u) (some h) e k l2)
                      (give_up-Did k laws x y (some u) (some h) e l2) in
                  let plain : is_success d.ret ≡ false = laws.create_plain l1 _ _ _ _ _ ∙ failed in
                  rw (e1, good, failed, e3, same) (inl (ground (arith, named, dropped, plain)))
              | inl created ↦
                  let plain : is_success d.ret ≡ true = laws.create_plain l1 _ _ _ _ _ ∙ created in
                  let (r, l3, e3, completed) =
                    Returns-run {P = Completed k laws x y h d.out l2}
                      (finish d.out d.aux u s (some h) k l2)
                      (finish-Completed d.out d.aux h u s l2 (laws.create_object l1 _ _ _ _ _ plain)
                        (laws.create_extension l1 _ _ _ _ _ plain (omega arith))) in
                  rw (e1, good, created, e3)
                    (join-Born k laws x y h d.out r l l2 l3 (ground (arith, named, plain))
                      completed)
            ]
      ]
