-- ===== src/NtStatus/Laws.antt =====
-- `cvt` and `NtError::code` of ntstatus.rs.
use ksync.Base.{ℕ, ◌≡◌, ◌≢◌, ok, err, arith}
use ksync.Kernel.{Kernel, Log, Returns}
use ksync.NtStatus.{cvt}

-- `cvt` never panics: zero is `Ok`, and every other status, success codes included, is the error
-- whose code is that status.
pub cvt_total :
    (status : ℕ) (k : Kernel) (l : Log)
    → Returns (cvt status k l) λ r l'.
      (l' ≡ l) × (status ≡ 0 → r ≡ ok tt) × (status ≢ 0 → r ≡ err (record { code = status }))
unfolding cvt
cvt_total status k l = ground arith
