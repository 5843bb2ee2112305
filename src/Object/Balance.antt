-- ===== src/Object/Balance.antt =====
-- References and handles of kobject.rs and handle.rs are balanced.
use ksync.Base.{
  if◌then◌else◌, ℕ, ◌+◌, ◌≡◌, refl, ◌≢◌, ◌==◌, not, ◌&&◌, ◌∷◌, null, false, Bool-cases, inl, inr,
  arith, Result, ok, err,
}
use ksync.Kernel.{Kernel, Log, M, pure, call, Returns, ◌>>=◌}
use ksync.Kernel.Abi
use ksync.Kernel.Abi.{Reply}
use ksync.Kernel.Ledger.{total, takes, gives, opens, closes, is_success, one_if}
use ksync.NtStatus.{NtError, new, cvt}
use ksync.Object.{
  owned_drop, KernelObject, ObjectHandle, release, checked, from_process_handle, from_thread_handle,
  from_process_id, from_thread_id, from_handle, opened, handle_new, from_kobject, close,
  generic_all,
}

-- `wdk::nt_success` tells by the sign bit.
abbrev pub NtSuccess : Kernel → Type 0
NtSuccess k = (l : Log) (s : ℕ) → not ((k l (Abi.nt_success s)).ret == 0) ≡ is_success s

-- From `l` to `l'` the object `o` is referenced `t` times and dereferenced `g` times.
abbrev pub Refs : ℕ → ℕ → ℕ → Log → Log → Type 0
Refs o t g l l' =
    (total (takes o) l' ≡ total (takes o) l + t) × (total (gives o) l' ≡ total (gives o) l + g)

-- A conversion either takes one reference, to the object it returns, or none.
abbrev pub Owns : Log → Result KernelObject NtError → Log → Type 0
Owns l (ok object) l' = (o : ℕ) → Refs o (one_if (object.raw == o)) 0 l l'
Owns l (err e) l' = (e.code ≢ 0) × ((o : ℕ) → Refs o 0 0 l l')

-- A routine that hands out one reference, to the object in `out`, exactly when it succeeds.
abbrev References : Abi.Call → Type 0
References c =
    (o : ℕ) (r : Reply)
    → (takes o c r ≡ one_if (is_success r.ret && r.out == o)) × (gives o c r ≡ 0)

checked-Owns :
    (c : Abi.Call)
    → References c
    → (k : Kernel) (l : Log) → NtSuccess k
    → Returns ((do r ← call c; checked r.ret r.out) k l) (Owns l)
unfolding checked new
checked-Owns c refs k l signs =
    let r : Reply = k l c in
    let h : Log = Abi.event c r ∷ l in
    elim (Bool-cases (is_success r.ret)) [
      | inl good ↦ rw (signs h r.ret, good) (λ o. ground (arith, refs o r, signs h r.ret))
      | inr bad ↦
          let nonzero : (r.ret == 0) ≡ false = ground arith in
          rw (signs h r.ret, bad, nonzero) (ground arith, λ o. ground (arith, refs o r))
    ]

-- Where `nt_success` tells by the sign bit, each of the four conversions that check the status
-- takes exactly one reference, to the object that it returns, or fails with a nonzero code and
-- takes none; it never panics.
pub conversions-Owns :
    (object_type handle access id : ℕ) (k : Kernel) (l : Log)
    → NtSuccess k
    → Returns (from_process_handle object_type handle access k l) (Owns l)
      × Returns (from_thread_handle object_type handle access k l) (Owns l)
      × Returns (from_process_id id k l) (Owns l)
      × Returns (from_thread_id id k l) (Owns l)
unfolding from_process_handle from_thread_handle from_process_id from_thread_id
conversions-Owns object_type handle access id k l signs = (
  checked-Owns (Abi.ob_reference_object_by_handle handle access object_type) (λ o r. (refl, refl)) k
      l signs,
  checked-Owns (Abi.ob_reference_object_by_handle handle access object_type) (λ o r. (refl, refl)) k
      l signs,
  checked-Owns (Abi.ps_lookup_process_by_process_id id) (λ o r. (refl, refl)) k l signs,
  checked-Owns (Abi.ps_lookup_thread_by_thread_id id) (λ o r. (refl, refl)) k l signs,
)

-- A reference is made, used and dropped: `FromOwnedHandle::from_handle`, then `Drop`.
unfoldable pub borrow_object : ObjectHandle → M (Unit {0})
unfolding from_handle release
borrow_object handle = do
  r ← from_handle handle
  elim r [ err e ↦ pure tt | ok object ↦ release object ]

-- A handle is opened on an object and dropped.
unfoldable pub borrow_handle : KernelObject → M (Unit {0})
unfolding from_kobject close
borrow_handle object = do
  r ← from_kobject object
  elim r [ err e ↦ pure tt | ok handle ↦ close handle ]

-- The object manager answers with STATUS_SUCCESS or an error, and never opens the null handle.
pub record ObLaws (k : Kernel) : Type 0 where
  pub reference_plain :
      (l : Log) (h a t : ℕ)
      → is_success (k l (Abi.ob_reference_object_by_handle h a t)).ret
        ≡ ((k l (Abi.ob_reference_object_by_handle h a t)).ret == 0)
  pub open_plain :
      (l : Log) (o a t : ℕ)
      → is_success (k l (Abi.ob_open_object_by_pointer o a t)).ret
        ≡ ((k l (Abi.ob_open_object_by_pointer o a t)).ret == 0)
  pub open_nonnull :
      (l : Log) (o a t : ℕ)
      → (k l (Abi.ob_open_object_by_pointer o a t)).ret ≡ 0
      → (k l (Abi.ob_open_object_by_pointer o a t)).out ≢ null

-- Over an object manager that answers with STATUS_SUCCESS or an error and opens no null handle,
-- making a reference from a handle and dropping it gives back as many references, to every object,
-- as it takes, and making a handle on an object and dropping it closes as many handles as it
-- opens.
pub borrow-balanced :
    (handle : ObjectHandle) (object : KernelObject) (k : Kernel) (l : Log)
    → ObLaws k
    → (x : ℕ)
    → Returns
        (borrow_object handle k l)
        (λ _ l'. total (takes x) l' + total (gives x) l ≡ total (takes x) l + total (gives x) l')
      × Returns (borrow_handle object k l) (λ _ l'.
        total (opens x) l' + total (closes x) l ≡ total (opens x) l + total (closes x) l')
unfolding borrow_object borrow_handle cvt new opened handle_new
borrow-balanced handle object k l laws x = (
  ground (arith, laws.reference_plain l handle.raw generic_all null),
  ground (
    arith,
    laws.open_plain l object.raw generic_all null,
    laws.open_nonnull l object.raw generic_all null,
  ),
)

-- The drop of an `OwnedHandle<ObjectHandle>` closes the handle twice, and no other handle.
pub owned_drop-twice :
    (handle : ObjectHandle) (x : ℕ) (k : Kernel) (l : Log)
    → Returns (owned_drop close close handle k l) λ _ l'.
      (total (closes x) l' ≡ total (closes x) l + (if handle.raw == x then 2 else 0))
      × (total (opens x) l' ≡ total (opens x) l)
unfolding owned_drop close
owned_drop-twice handle x k l = ground arith
