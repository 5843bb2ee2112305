-- ===== src/Tests/Kernels.antt =====
-- Concrete kernels: one that behaves as documented, and some on which things go wrong.
use ksync.Base.{if◌then◌else◌, ℕ, suc, ◌+◌, ◌<◌, ◌≡◌, refl, Bool, false, ◌==◌, not, [], ◌∷◌, arith}
use ksync.Kernel.Abi.{
  ex_allocate_timer, ex_try_to_acquire_fast_mutex, ke_try_to_acquire_guarded_mutex,
  ex_acquire_resource_exclusive, ke_read_state_semaphore, ke_wait_for_single_object_timeout, Call,
  Reply, Log, Kernel, box_new, box_free, ke_get_current_irql, nt_success, ke_reset_event,
  ke_read_state_event, ex_allocate_pool, ob_reference_object_by_handle, ob_open_object_by_pointer,
  ps_lookup_process_by_process_id, ps_lookup_thread_by_thread_id, ps_create_system_thread,
  ke_query_active_processor_count, io_allocate_work_item, io_create_device,
  io_get_attached_device_reference, io_get_related_device_object, io_attach_device_to_device_stack,
  ex_initialize_resource,
}
use ksync.Kernel.Ledger.{sema_of, live_after, total, live, irql, signaled, one_if, is_success}

abbrev pub answer : ℕ → Reply
answer n = record { ret = n; out = 0; aux = 0 }

abbrev pub hands_out : ℕ → Reply
hands_out p = record { ret = 0; out = p; aux = 0 }

-- Above every address that a box was ever given.
abbrev pub box_sizes : Call → Reply → ℕ
box_sizes box_new r = r.ret
box_sizes _ r = 0

unfoldable pub fresh_box : Log → ℕ
fresh_box l = suc (total box_sizes l)

abbrev pub standard : Kernel
standard l ke_get_current_irql = answer (irql 0 l)
standard l (nt_success s) = answer (one_if (is_success s))
standard l (ke_reset_event e) = answer (one_if (signaled e l))
standard l (ke_read_state_event e) = answer (one_if (signaled e l))
standard l (ex_try_to_acquire_fast_mutex q) = answer 1
standard l (ke_try_to_acquire_guarded_mutex q) = answer 1
standard l (ex_acquire_resource_exclusive q wait) = answer 1
standard l (ex_allocate_timer f c a) = answer 9000
standard l (ke_read_state_semaphore p) = answer (sema_of p l).0
standard l (ke_wait_for_single_object_timeout p a d) =
    answer (if (sema_of p l).0 == 0 then 0x102 else 0)
standard l (ex_allocate_pool p s t) = answer 4096
standard l box_new = answer (fresh_box l)
standard l (ob_reference_object_by_handle h a t) = hands_out (h + 1000)
standard l (ob_open_object_by_pointer o a t) = hands_out (o + 2000)
standard l (ps_lookup_process_by_process_id i) = hands_out 77
standard l (ps_lookup_thread_by_thread_id i) = hands_out 78
standard l (ps_create_system_thread c) = hands_out 88
standard l ke_query_active_processor_count = answer 4
standard l (io_allocate_work_item d) = answer 5000
standard l (io_create_device d s n t c) = record { ret = 0; out = 6000; aux = 6100 }
standard l (io_attach_device_to_device_stack t d) = hands_out 8100
standard l (io_get_attached_device_reference d) = answer 7100
standard l (io_get_related_device_object f) = answer 7200
standard l _ = answer 0

-- A resource cannot be initialised: STATUS_UNSUCCESSFUL.
abbrev pub no_resource : Kernel
no_resource l (ex_initialize_resource p) = answer 0xc000_0001
no_resource l (ex_allocate_pool p s t) = answer 4096
no_resource l _ = answer 0

-- There is no memory.
abbrev pub no_memory : Kernel
no_memory l c = answer 0

step-below :
    (p : ℕ) (b : Bool) (c : Call) (r : Reply)
    → box_sizes c r < p
    → b ≡ false
    → live_after p b c r ≡ false
step-below p b box_new r h e = ground (arith, e)
step-below p b (box_free q) r h e = ground (arith, e)
step-below p b _ r h e = e

live-below : (p : ℕ) (l : Log) → total box_sizes l < p → live p l ≡ false
live-below p [] h = refl
live-below p (e ∷ l) h =
    step-below p (live p l) e.what e.reply (omega arith) (live-below p l (omega arith))

pub standard-fresh : (l : Log) → live (standard l box_new).ret l ≡ false
unfolding fresh_box
standard-fresh l = live-below (fresh_box l) l (omega arith)

pub standard-signs : (l : Log) (s : ℕ) → not ((standard l (nt_success s)).ret == 0) ≡ is_success s
standard-signs l s = ground arith
