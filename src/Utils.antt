-- ===== src/Utils.antt =====
-- utils.rs: pool allocation.
pub mod Digits
pub mod ControlCode
pub mod Attributes
use ksync.Base.{ℕ, ◌==◌, if◌then◌else◌, null}
use ksync.Kernel.{M, pure, call, emit, ◌>>=◌, ◌>>◌}
use ksync.Kernel.Abi.{ex_allocate_pool, write_zero}

-- The pool kinds that the crate names, `NonPagedPoolNx` and `PagedPool`.
abbrev pub non_paged_pool_nx : ℕ
non_paged_pool_nx = 512

abbrev pub paged_pool : ℕ
paged_pool = 1

unfoldable pub ex_allocate_pool_zero : ℕ → ℕ → ℕ → M ℕ
ex_allocate_pool_zero pool_type size tag = do
  r ← call (ex_allocate_pool pool_type size tag)
  if r.ret == null then pure r.ret else (do emit (write_zero r.ret size); pure r.ret)
