-- ===== src/NtStatus.antt =====
-- ntstatus.rs: status codes as errors.
use ksync.Base.{ℕ, ◌==◌, if◌then◌else◌, not, Bool, Result, ok, err}
use ksync.Kernel.{M, pure, panic, call, ◌>>=◌}
use ksync.Kernel.Abi
pub mod Laws

-- `NtError(NonZeroI32)`: the constructor below lets no zero in.
pub record NtError : Type 0 where
  pub code : ℕ

unfoldable pub new : ℕ → M NtError
new status = if status == 0 then panic else pure (record { code = status })

abbrev pub status_success : ℕ
status_success = 0

unfoldable pub cvt : ℕ → M (Result (Unit {0}) NtError)
unfolding new
cvt status = if status == status_success then pure (ok tt) else (do e ← new status; pure (err e))

-- `wdk::nt_success`, of another crate.
abbrev pub nt_success : ℕ → M Bool
nt_success status = do r ← call (Abi.nt_success status); pure (not (r.ret == 0))

-- `return Err(NtError::from(status))`
abbrev pub fail : {A : Type 0} → ℕ → M (Result A NtError)
fail status = do e ← new status; pure (err e)
