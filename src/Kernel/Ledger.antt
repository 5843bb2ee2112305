-- ===== src/Kernel/Ledger.antt =====
-- What a log amounts to by the documented effect of the routines: references taken and given back,
-- memory that is allocated, and holds on locks. States has what the kernel's objects are after a log.
pub mod States
pub use ksync.Kernel.Ledger.States.{
  passive_level, apc_level, dispatch_level, level_after, saved_after, levels, irql, event_after,
  event_of, signaled, context_after, context_of, queued_after, last_queued, sema_after, sema_of,
  thread_context_after, thread_context_of,
}
use ksync.Base.{ℕ, ◌+◌, ◌-◌, ◌==◌, ltb, Bool, true, false, not, ◌&&◌, [], ◌∷◌, if◌then◌else◌, null}
use ksync.Kernel.Abi.{
  ex_allocate_timer, ex_delete_timer, Call, Reply, Log, ex_allocate_pool, ex_free_pool, box_new,
  box_free, invoke, read_captured, write_value, drop_value, ke_acquire_spin_lock_at_dpc_level,
  ke_acquire_spin_lock_raise_to_dpc, ke_try_to_acquire_spin_lock_at_dpc_level,
  ke_release_spin_lock_from_dpc_level, ke_release_spin_lock, ke_acquire_in_stack_queued_spin_lock,
  ke_acquire_in_stack_queued_spin_lock_at_dpc_level, ke_release_in_stack_queued_spin_lock,
  ke_release_in_stack_queued_spin_lock_from_dpc_level, ex_acquire_fast_mutex,
  ex_try_to_acquire_fast_mutex, ex_release_fast_mutex, ke_acquire_guarded_mutex,
  ke_try_to_acquire_guarded_mutex, ke_release_guarded_mutex, ex_acquire_resource_exclusive,
  ex_acquire_resource_shared, ex_release_resource, ob_reference_object_by_handle,
  ob_open_object_by_pointer, obf_dereference_object, ps_lookup_process_by_process_id,
  ps_lookup_thread_by_thread_id, ps_create_system_thread, zw_close, io_create_device,
  io_delete_device, io_create_symbolic_link, io_delete_symbolic_link,
  io_attach_device_to_device_stack, io_detach_device, io_get_attached_device_reference,
  io_allocate_work_item, io_free_work_item, ke_initialize_event, ke_set_event, ke_clear_event,
  ke_initialize_dpc, ke_initialize_threaded_dpc, ke_insert_queue_dpc, ke_set_target_processor_dpc,
  ke_reset_event, ke_initialize_semaphore, ke_release_semaphore, ke_wait_for_single_object,
  ke_wait_for_single_object_timeout,
}

abbrev pub one_if : Bool → ℕ
one_if true = 1
one_if false = 0

-- An NTSTATUS is a success code exactly when its sign bit is clear.
abbrev pub is_success : ℕ → Bool
is_success status = ltb status 0x8000_0000

-- Sums a weight over the log.
abbrev pub total : (Call → Reply → ℕ) → Log → ℕ
total w [] = 0
total w (e ∷ l) = w e.what e.reply + total w l

-- References to the object `o` that a call takes, and that it gives back.
abbrev pub takes : ℕ → Call → Reply → ℕ
takes o (ob_reference_object_by_handle h a t) r = one_if (is_success r.ret && r.out == o)
takes o (ps_lookup_process_by_process_id i) r = one_if (is_success r.ret && r.out == o)
takes o (ps_lookup_thread_by_thread_id i) r = one_if (is_success r.ret && r.out == o)
takes o (io_get_attached_device_reference d) r = one_if (r.ret == o)
takes o _ r = 0

abbrev pub gives : ℕ → Call → Reply → ℕ
gives o (obf_dereference_object p) r = one_if (p == o)
gives o _ r = 0

-- Handles to `h` that a call opens, and that it closes.
abbrev pub opens : ℕ → Call → Reply → ℕ
opens h (ob_open_object_by_pointer o a t) r = one_if (is_success r.ret && r.out == h)
opens h (ps_create_system_thread c) r = one_if (is_success r.ret && r.out == h)
opens h _ r = 0

abbrev pub closes : ℕ → Call → Reply → ℕ
closes h (zw_close g) r = one_if (g == h)
closes h _ r = 0

-- Pool blocks that a call obtains, and that it returns.
abbrev pub allocates : Call → Reply → ℕ
allocates (ex_allocate_pool p s t) r = one_if (not (r.ret == null))
allocates _ r = 0

abbrev pub frees : Call → Reply → ℕ
frees (ex_free_pool p t) r = 1
frees _ r = 0

-- The same for the block at an address.
abbrev pub allocates_at : ℕ → Call → Reply → ℕ
allocates_at x (ex_allocate_pool p s t) r = one_if (not (r.ret == null) && r.ret == x)
allocates_at x _ r = 0

abbrev pub frees_at : ℕ → Call → Reply → ℕ
frees_at x (ex_free_pool p t) r = one_if (p == x)
frees_at x _ r = 0

-- Boxes that a call makes, and that it drops.
abbrev pub boxes : Call → Reply → ℕ
boxes box_new r = 1
boxes _ r = 0

abbrev pub unboxes : Call → Reply → ℕ
unboxes (box_free p) r = 1
unboxes _ r = 0

-- Whether a call creates, or deletes, the device at an address, and the same for the symbolic link
-- whose name is at an address.
abbrev pub creates_device : ℕ → Call → Reply → ℕ
creates_device x (io_create_device d s n t c) r = one_if (is_success r.ret && r.out == x)
creates_device x _ r = 0

abbrev pub deletes_device : ℕ → Call → Reply → ℕ
deletes_device x (io_delete_device d) r = one_if (d == x)
deletes_device x _ r = 0

abbrev pub creates_link : ℕ → Call → Reply → ℕ
creates_link y (io_create_symbolic_link s n) r = one_if (is_success r.ret && s == y)
creates_link y _ r = 0

abbrev pub deletes_link : ℕ → Call → Reply → ℕ
deletes_link y (io_delete_symbolic_link s) r = one_if (s == y)
deletes_link y _ r = 0

abbrev pub attaches : Call → Reply → ℕ
attaches (io_attach_device_to_device_stack t d) r = one_if (is_success r.ret)
attaches _ r = 0

abbrev pub detaches : Call → Reply → ℕ
detaches (io_detach_device t) r = 1
detaches _ r = 0

abbrev pub makes_item : Call → Reply → ℕ
makes_item (io_allocate_work_item d) r = one_if (not (r.ret == null))
makes_item _ r = 0

abbrev pub frees_item : Call → Reply → ℕ
frees_item (io_free_work_item d) r = 1
frees_item _ r = 0

abbrev pub makes_item_at : ℕ → Call → Reply → ℕ
makes_item_at x (io_allocate_work_item d) r = one_if (not (r.ret == null) && r.ret == x)
makes_item_at x _ r = 0

abbrev pub frees_item_at : ℕ → Call → Reply → ℕ
frees_item_at x (io_free_work_item p) r = one_if (p == x)
frees_item_at x _ r = 0

-- Timers that a call of the executive makes, and that it deletes.
abbrev pub makes_timer : Call → Reply → ℕ
makes_timer (ex_allocate_timer f c a) r = one_if (not (r.ret == null))
makes_timer _ r = 0

abbrev pub deletes_timer : ℕ → Call → Reply → ℕ
deletes_timer t (ex_delete_timer p c w) r = one_if (p == t)
deletes_timer t _ r = 0

-- Holds on the lock at `p` that a call acquires, exclusive or shared, and that it releases. An
-- in-stack queued spin lock is released through its queue handle, so there `p` is the handle.
abbrev pub acquires : ℕ → Call → Reply → ℕ
acquires p (ke_acquire_spin_lock_at_dpc_level q) r = one_if (q == p)
acquires p (ke_acquire_spin_lock_raise_to_dpc q) r = one_if (q == p)
acquires p (ke_try_to_acquire_spin_lock_at_dpc_level q) r = one_if (not (r.ret == 0) && q == p)
acquires p (ke_acquire_in_stack_queued_spin_lock q h) r = one_if (h == p)
acquires p (ke_acquire_in_stack_queued_spin_lock_at_dpc_level q h) r = one_if (h == p)
acquires p (ex_acquire_fast_mutex q) r = one_if (q == p)
acquires p (ex_try_to_acquire_fast_mutex q) r = one_if (not (r.ret == 0) && q == p)
acquires p (ke_acquire_guarded_mutex q) r = one_if (q == p)
acquires p (ke_try_to_acquire_guarded_mutex q) r = one_if (not (r.ret == 0) && q == p)
acquires p (ex_acquire_resource_exclusive q true) r = one_if (q == p)
acquires p (ex_acquire_resource_exclusive q false) r = one_if (not (r.ret == 0) && q == p)
acquires p (ex_acquire_resource_shared q true) r = one_if (q == p)
acquires p (ex_acquire_resource_shared q false) r = one_if (not (r.ret == 0) && q == p)
acquires p _ r = 0

abbrev pub releases : ℕ → Call → Reply → ℕ
releases p (ke_release_spin_lock_from_dpc_level q) r = one_if (q == p)
releases p (ke_release_spin_lock q i) r = one_if (q == p)
releases p (ke_release_in_stack_queued_spin_lock h) r = one_if (h == p)
releases p (ke_release_in_stack_queued_spin_lock_from_dpc_level h) r = one_if (h == p)
releases p (ex_release_fast_mutex q) r = one_if (q == p)
releases p (ke_release_guarded_mutex q) r = one_if (q == p)
releases p (ex_release_resource q) r = one_if (q == p)
releases p _ r = 0

-- Whether the box at `p` is allocated.
abbrev pub live_after : ℕ → Bool → Call → Reply → Bool
live_after p b box_new r = if r.ret == p then true else b
live_after p b (box_free q) r = if q == p then false else b
live_after p b _ r = b

abbrev pub live : ℕ → Log → Bool
live p [] = false
live p (e ∷ l) = live_after p (live p l) e.what e.reply

-- Whether a value lives in the user's memory at `p`: it was moved there and not dropped since.
abbrev pub filled_after : ℕ → Bool → Call → Reply → Bool
filled_after p b (write_value q) r = if q == p then true else b
filled_after p b (drop_value q) r = if q == p then false else b
filled_after p b _ r = b

abbrev pub filled : ℕ → Log → Bool
filled p [] = false
filled p (e ∷ l) = filled_after p (filled p l) e.what e.reply

-- A call that touches a box needs it to be allocated, and a destructor needs a value.
abbrev pub sound_call : Log → Call → Bool
sound_call l (invoke p) = live p l
sound_call l (read_captured p) = live p l
sound_call l (box_free p) = live p l
sound_call l (drop_value p) = filled p l
sound_call l _ = true

-- No box was used or dropped after it was dropped, and no destructor ran without a value.
abbrev pub sound : Log → Bool
sound [] = true
sound (e ∷ l) = sound_call l e.what && sound l

-- Calls that queue a DPC, and calls that direct one to a core.
abbrev pub queues : Call → Reply → ℕ
queues (ke_insert_queue_dpc q) r = 1
queues _ r = 0

abbrev pub targets : ℕ → Call → Reply → ℕ
targets c (ke_set_target_processor_dpc q core) r = one_if (core == c)
targets c _ r = 0
