-- ===== src/Thread.antt =====
-- thread.rs: `spawn`, the start routine, and `JoinHandle`.
pub mod Join
pub mod Orders
use ksync.Base.{ℕ, ◌%◌, ◌^◌, Bool, true, false, not, ◌==◌, if◌then◌else◌, null, Result, ok, err}
use ksync.Kernel.{M, pure, panic, call, emit, question, ◌>>=◌, ◌>>◌}
use ksync.Kernel.Abi.{
  box_new, box_free, invoke, ps_create_system_thread, ob_reference_object_by_handle,
  ke_wait_for_single_object, ke_wait_for_single_object_timeout, obf_dereference_object,
  zw_query_information_thread, zw_close, ke_query_active_processor_count,
}
use ksync.NtStatus.{NtError, cvt, nt_success, fail, new}

-- `OwnedHandle`; a `JoinHandle` wraps one.
pub record JoinHandle : Type 0 where
  pub raw : ℕ

-- The boxed closure goes to the new thread, or is dropped here.
unfoldable pub spawn : M (Result JoinHandle NtError)
spawn = do
  context ← call box_new
  r ← call (ps_create_system_thread context.ret)
  fine ← nt_success r.ret
  if not fine
      then (do emit (box_free context.ret); e ← new r.ret; pure (err e))
      else pure (ok (record { raw = r.out }))

-- What the new thread runs: the closure is called, and its box is dropped.
unfoldable pub start_routine_stub : (context : ℕ) → M (Unit {0})
start_routine_stub context = do emit (invoke context); emit (box_free context)

abbrev pub thread_query_limited_information : ℕ
thread_query_limited_information = 0x800

abbrev pub status_success : ℕ
status_success = 0

unfoldable pub is_finished : (thread_type : ℕ) → JoinHandle → M Bool
is_finished thread_type self = do
  r ← call (ob_reference_object_by_handle self.raw thread_query_limited_information thread_type)
  fine ← nt_success r.ret
  if not fine then pure false else (do
    w ← call (ke_wait_for_single_object_timeout r.out false 0)
    pure (w.ret == status_success))

-- The `Drop` of the handle.
unfoldable pub drop : JoinHandle → M (Unit {0})
drop self = emit (zw_close self.raw)

-- `join` up to the drop of `self`.
unfoldable pub join_open : (thread_type : ℕ) → JoinHandle → M (Result ℕ NtError)
join_open thread_type self = do
  r ← call (ob_reference_object_by_handle self.raw thread_query_limited_information thread_type)
  q ← cvt r.ret
  question q (λ _. do
    w ← call (ke_wait_for_single_object r.out false)
    q' ← cvt w.ret
    question q' (λ _. do
      emit (obf_dereference_object r.out)
      i ← call (zw_query_information_thread self.raw)
      q'' ← cvt i.ret
      question q'' (λ _. pure (ok i.out))))

-- `join` takes `self` by value: the handle is closed on every return.
unfoldable pub join : (thread_type : ℕ) → JoinHandle → M (Result ℕ NtError)
unfolding join_open drop
join thread_type self = do r ← join_open thread_type self; drop self; pure r

-- `NonZero::new(..).unwrap()`
unfoldable pub available_parallelism : M ℕ
available_parallelism = do
  r ← call ke_query_active_processor_count
  if r.ret == 0 then panic else pure r.ret
