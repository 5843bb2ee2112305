-- ===== src/Utils/ControlCode.antt =====
-- utils.rs: `ctl_code`, the macros on handles, and what reads the current thread.
use Prim.Native.Nat.{bit_or}
use ksync.Base.{ℕ, ◌+◌, ◌*◌, ◌/◌, ◌%◌, ◌^◌, ◌<◌, ◌≡◌, arith}
use ksync.Utils.Digits.{bit_or-pack}

-- `<<` on a `u32`: the digits that leave the word are lost.
unfoldable pub shl : ℕ → ℕ → ℕ
shl x n = x * 2 ^ n % 2 ^ 32

unfoldable pub ctl_code : (dev_type function method access : ℕ) → ℕ
unfolding shl
ctl_code dev_type function method access =
    bit_or (bit_or (bit_or (shl dev_type 16) (shl access 14)) (shl function 2)) method

-- The macros `handle_to_ulong` and `ulong_to_handle`, on handles of 64 bits.
unfoldable pub handle_to_ulong : ℕ → ℕ
handle_to_ulong a = a % 2 ^ 32

unfoldable pub ulong_to_handle : ℕ → ℕ
ulong_to_handle a = a

-- `KeGetCurrentThread`, with the memory behind the segment register `gs` as a parameter.
unfoldable pub read_gs_qword : (gs : ℕ → ℕ) → (offset : ℕ) → ℕ
read_gs_qword gs offset = gs offset

unfoldable pub ke_get_current_thread : (gs : ℕ → ℕ) → ℕ
unfolding read_gs_qword
ke_get_current_thread gs = read_gs_qword gs 0x188

-- The fields of an IO control code, as the IO manager reads them.
pub record Fields : Type 0 where
  pub dev_type : ℕ
  pub access : ℕ
  pub function : ℕ
  pub method : ℕ

abbrev pub fields : ℕ → Fields
fields code = record {
  dev_type = code / 2 ^ 16;
  access = code / 2 ^ 14 % 4;
  function = code / 4 % 2 ^ 12;
  method = code % 4;
}

packed :
    (dev_type function method access : ℕ)
    → dev_type < 2 ^ 16
    → function < 2 ^ 12
    → method < 4
    → access < 4
    → ctl_code dev_type function method access
      ≡ dev_type * 2 ^ 16 + access * 2 ^ 14 + function * 4 + method
unfolding ctl_code shl
packed dev_type function method access d f m a =
    let whole : dev_type * 2 ^ 16 % 2 ^ 32 ≡ dev_type * 2 ^ 16 = omega arith in
    let rights : access * 2 ^ 14 % 2 ^ 32 ≡ access * 2 ^ 14 = omega arith in
    let number : function * 2 ^ 2 % 2 ^ 32 ≡ function * 2 ^ 2 = omega arith in
    let upper : ℕ = dev_type * 4 + access in
    let top : ℕ = dev_type * 2 ^ 14 + access * 2 ^ 12 + function in
    let first : dev_type * 2 ^ 16 + access * 2 ^ 14 ≡ upper * 2 ^ 14 = omega arith in
    let second : upper * 2 ^ 14 + function * 2 ^ 2 ≡ top * 2 ^ 2 = omega arith in
    rw (whole, rights, number, bit_or-pack 16 dev_type (access * 2 ^ 14) (omega arith), first)
      (rw (bit_or-pack 14 upper (function * 2 ^ 2) (omega arith), second)
        (rw (bit_or-pack 2 top method m) (omega arith)))

-- A device type of 16 bits, a function number of 12, and a method and an access of two bits each are
-- what the IO manager reads back from their control code, which fits in 32 bits.
pub ctl_code-fields :
    (dev_type function method access : ℕ)
    → dev_type < 2 ^ 16
    → function < 2 ^ 12
    → method < 4
    → access < 4
    → (ctl_code dev_type function method access < 2 ^ 32)
      × (fields (ctl_code dev_type function method access)
          ≡ record { dev_type = dev_type; access = access; function = function; method = method })
ctl_code-fields dev_type function method access d f m a =
    let code = packed dev_type function method access d f m a in
    (omega (arith, code), ground (arith, code))
