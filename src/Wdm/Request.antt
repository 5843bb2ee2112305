-- ===== src/Wdm/Request.antt =====
-- wdm.rs: `irp_dispatch_stub`; utils.rs: `IoGetCurrentIrpStackLocation` and `IoMarkIrpPending`.
use ksync.Base.{
  ℕ, ◌≡◌, ◌≤◌, leb, ◌==◌, if◌then◌else◌, Option, none, some, Result, ok, err, ◌+◌, arith,
}
use ksync.Kernel.{Kernel, Log, M, pure, panic, emit, Returns, ◌>>=◌, ◌>>◌}
use ksync.Kernel.Abi.{Call, Reply, io_complete_request}
use ksync.Kernel.Ledger.{total}
use ksync.NtStatus.{NtError}
use Prim.Native.Nat.{bit_or}

-- The current stack location of a request.
pub record StackLocation : Type 0 where
  pub control : ℕ

pub record Irp : Type 0 where
  pub address : ℕ
  pub current_location : ℕ
  pub stack_count : ℕ
  pub current : StackLocation
  pub status : ℕ
  pub information : ℕ

abbrev pub status_success : ℕ
status_success = 0

abbrev pub status_pending : ℕ
status_pending = 0x103

abbrev pub status_not_implemented : ℕ
status_not_implemented = 0xc000_0002

-- `SL_PENDING_RETURNED`
abbrev pub sl_pending_returned : ℕ
sl_pending_returned = 1

-- The location is reached through a pointer; here it is its contents.
unfoldable pub io_get_current_irp_stack_location : Irp → M StackLocation
io_get_current_irp_stack_location irp =
    if leb irp.current_location irp.stack_count then pure irp.current else panic

unfoldable pub set_pending : StackLocation → StackLocation
set_pending s = record s { control = bit_or s.control sl_pending_returned }

-- `(unsafe { *p }).Control |= ..`: the block is a value, so the copy of the location is changed and
-- the request is not.
unfoldable pub io_mark_irp_pending : Irp → M Irp
unfolding io_get_current_irp_stack_location set_pending
io_mark_irp_pending irp = do
  copy ← io_get_current_irp_stack_location irp
  let marked = set_pending copy
  pure irp

-- `EmptyDispatch::dispatch`
unfoldable pub empty_dispatch : Irp → Result ℕ NtError
empty_dispatch irp = err (record { code = status_not_implemented })

-- How the handler's result is recorded: the status, and the request with its information.
unfoldable pub record_result : Irp → Result ℕ NtError → ℕ × Irp
record_result irp (ok n) = (status_success, record irp { information = n })
record_result irp (err e) = (e.code, irp)

-- `handler` is what the extension holds, none if it is null.
unfoldable pub irp_dispatch_stub : (handler : Option (Irp → Result ℕ NtError)) → Irp → M (ℕ × Irp)
unfolding record_result io_mark_irp_pending
irp_dispatch_stub none irp = do
  emit (io_complete_request irp.address)
  pure (status_not_implemented, record irp { status = status_not_implemented })
irp_dispatch_stub (some dispatch) irp =
    let (status, informed) = record_result irp (dispatch irp) in
    let answered : Irp = record informed { status = status } in
    if status == status_pending
    then (do marked ← io_mark_irp_pending answered; pure (status, marked))
    else (do emit (io_complete_request irp.address); pure (status, answered))

-- How often a call completes the request at `p`.
abbrev pub completes : ℕ → Call → Reply → ℕ
completes p (io_complete_request q) r = if q == p then 1 else 0
completes p _ r = 0

-- What the dispatch routine promises of a request: its status is the one returned, and it is completed
-- once, unless that is STATUS_PENDING, and then not at all.
pub record Answered (irp : Irp) (l : Log) (r : ℕ × Irp) (l' : Log) : Type 0 where
  pub stored : r.1.status ≡ r.0
  pub completed :
      total (completes irp.address) l'
      ≡ total (completes irp.address) l + (if r.0 == status_pending then 0 else 1)

-- The status that the documentation of `IrpDispatch` asks for.
abbrev pub expected : Option (Irp → Result ℕ NtError) → Irp → ℕ × ℕ
expected none irp = (status_not_implemented, irp.information)
expected (some dispatch) irp = elim (dispatch irp) [
  | ok n ↦ (status_success, n)
  | err e ↦ (e.code, irp.information)
]

-- For a request whose stack location is in range, on every branch, the stub stores the status that
-- it returns, completes the request once unless that is STATUS_PENDING and then never, and status
-- and information are those of the handler, or STATUS_NOT_IMPLEMENTED without one.
pub irp_dispatch_stub-Answered :
    (handler : Option (Irp → Result ℕ NtError)) (irp : Irp) (k : Kernel) (l : Log)
    → irp.current_location ≤ irp.stack_count
    → Returns
        (irp_dispatch_stub handler irp k l)
        λ r l'. Answered irp l r l' × ((r.0, r.1.information) ≡ expected handler irp)
unfolding irp_dispatch_stub
irp_dispatch_stub-Answered none irp k l h = ground arith
irp_dispatch_stub-Answered (some dispatch) irp k l h = ground arith

-- A request, with its stack location in range, whose handler answers STATUS_PENDING is not marked
-- pending by the stub: its stack location is as it was.
pub pending_not_marked :
    (dispatch : Irp → Result ℕ NtError) (irp : Irp) (k : Kernel) (l : Log)
    → irp.current_location ≤ irp.stack_count
    → dispatch irp ≡ err (record { code = status_pending })
    → Returns
        (irp_dispatch_stub (some dispatch) irp k l)
        λ r l'. (r.0 ≡ status_pending) × (r.1.current ≡ irp.current)
unfolding irp_dispatch_stub
pending_not_marked dispatch irp k l h p = ground arith
