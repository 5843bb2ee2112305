-- ===== src/Kernel/Abi.antt =====
-- The calls that leave the crate, one constructor for each routine, with the arguments that matter.
-- Pointers, handles, tags and 32-bit status codes are numbers; a status is its bit pattern.
use ksync.Base.{ℕ, Bool, List}

pub data Call : Type 0 where
  -- pool and boxes
  ex_allocate_pool : (pool_type size tag : ℕ) → Call
  ex_free_pool : (ptr tag : ℕ) → Call
  box_new : Call  -- `Box::new`, the reply is the address
  box_free : (ptr : ℕ) → Call  -- a `Box` is dropped, and with it its content
  invoke : (ptr : ℕ) → Call  -- the callback in the box at `ptr` is called
  read_captured : (ptr : ℕ) → Call  -- that callback reads a variable that it captured
  write_zero : (ptr size : ℕ) → Call  -- `ptr::write_bytes` with zero
  write_value : (ptr : ℕ) → Call  -- a value of the user's type is moved to uninitialised memory
  drop_value : (ptr : ℕ) → Call  -- the destructor of the value at `ptr` is run
  nt_success : (status : ℕ) → Call  -- `wdk::nt_success`
  -- interrupt level and locks
  ke_get_current_irql : Call
  ke_initialize_spin_lock : (lock : ℕ) → Call
  ke_acquire_spin_lock_at_dpc_level : (lock : ℕ) → Call
  ke_acquire_spin_lock_raise_to_dpc : (lock : ℕ) → Call
  ke_try_to_acquire_spin_lock_at_dpc_level : (lock : ℕ) → Call
  ke_release_spin_lock_from_dpc_level : (lock : ℕ) → Call
  ke_release_spin_lock : (lock new_irql : ℕ) → Call
  ke_acquire_in_stack_queued_spin_lock : (lock handle : ℕ) → Call
  ke_acquire_in_stack_queued_spin_lock_at_dpc_level : (lock handle : ℕ) → Call
  ke_release_in_stack_queued_spin_lock : (handle : ℕ) → Call
  ke_release_in_stack_queued_spin_lock_from_dpc_level : (handle : ℕ) → Call
  ke_initialize_event : (event kind state : ℕ) → Call
  ex_acquire_fast_mutex : (lock : ℕ) → Call
  ex_try_to_acquire_fast_mutex : (lock : ℕ) → Call
  ex_release_fast_mutex : (lock : ℕ) → Call
  ke_initialize_guarded_mutex : (lock : ℕ) → Call
  ke_acquire_guarded_mutex : (lock : ℕ) → Call
  ke_try_to_acquire_guarded_mutex : (lock : ℕ) → Call
  ke_release_guarded_mutex : (lock : ℕ) → Call
  ex_initialize_resource : (lock : ℕ) → Call
  ex_acquire_resource_exclusive : (lock : ℕ) (wait : Bool) → Call
  ex_acquire_resource_shared : (lock : ℕ) (wait : Bool) → Call
  ex_release_resource : (lock : ℕ) → Call
  ex_delete_resource : (lock : ℕ) → Call
  -- events, semaphores and waits
  ke_set_event : (event : ℕ) → Call
  ke_clear_event : (event : ℕ) → Call
  ke_reset_event : (event : ℕ) → Call
  ke_read_state_event : (event : ℕ) → Call
  ke_initialize_semaphore : (sema count limit : ℕ) → Call
  ke_release_semaphore : (sema count wait : ℕ) → Call
  ke_read_state_semaphore : (sema : ℕ) → Call
  ke_wait_for_single_object : (object : ℕ) (alertable : Bool) → Call
  ke_wait_for_single_object_timeout : (object : ℕ) (alertable : Bool) (due : ℕ) → Call
  ke_delay_execution_thread : (due : ℕ) → Call
  -- the object manager: the reply has a status and, in `out`, an object or a handle
  ob_reference_object_by_handle : (handle access object_type : ℕ) → Call
  ob_open_object_by_pointer : (object access object_type : ℕ) → Call
  obf_dereference_object : (object : ℕ) → Call
  ps_lookup_process_by_process_id : (id : ℕ) → Call
  ps_lookup_thread_by_thread_id : (id : ℕ) → Call
  ps_create_system_thread : (context : ℕ) → Call
  zw_query_information_thread : (handle : ℕ) → Call
  zw_close : (handle : ℕ) → Call
  -- deferred procedure calls, timers and work items
  ke_initialize_dpc : (dpc context : ℕ) → Call
  ke_initialize_threaded_dpc : (dpc context : ℕ) → Call
  ke_set_target_processor_dpc : (dpc core : ℕ) → Call
  ke_insert_queue_dpc : (dpc : ℕ) → Call
  ke_query_active_processor_count : Call
  ke_initialize_timer : (timer kind : ℕ) → Call
  ke_set_timer : (timer due period dpc : ℕ) → Call
  ke_cancel_timer : (timer : ℕ) → Call
  ke_read_state_timer : (timer : ℕ) → Call
  ex_allocate_timer : (has_callback : Bool) (context attributes : ℕ) → Call
  ex_set_timer : (timer due period : ℕ) → Call
  ex_cancel_timer : (timer : ℕ) → Call
  ex_delete_timer : (timer : ℕ) (cancel wait : Bool) → Call
  ex_set_timer_resolution : (desired set : ℕ) → Call
  io_allocate_work_item : (device : ℕ) → Call
  io_free_work_item : (item : ℕ) → Call
  io_queue_work_item : (item context : ℕ) → Call
  -- devices and requests
  io_create_device : (driver ext_size name dev_type characteristics : ℕ) → Call
  io_delete_device : (device : ℕ) → Call
  io_create_symbolic_link : (symbol name : ℕ) → Call
  io_delete_symbolic_link : (symbol : ℕ) → Call
  io_attach_device_to_device_stack : (target device : ℕ) → Call
  io_detach_device : (target : ℕ) → Call
  io_complete_request : (irp : ℕ) → Call
  io_get_device_object_pointer : (name : ℕ) → Call
  io_get_attached_device_reference : (device : ℕ) → Call
  io_get_related_device_object : (file : ℕ) → Call

-- The returned value, and what the routine stores through its out-parameters.
pub record Reply : Type 0 where
  pub ret : ℕ
  pub out : ℕ
  pub aux : ℕ

pub record Event : Type 0 where
  pub what : Call
  pub reply : Reply

abbrev pub event : Call → Reply → Event
event c r = record { what = c; reply = r }

-- The calls made so far, the last one first.
abbrev pub Log : Type 0
Log = List Event

abbrev pub Kernel : Type 0
Kernel = Log → Call → Reply
