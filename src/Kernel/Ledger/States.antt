-- ===== src/Kernel/Ledger/States.antt =====
-- What the kernel's objects are after a log, by the documented effect of the routines: the interrupt
-- level, events, semaphores, and the contexts of DPCs and threads.
use ksync.Base.{ℕ, ◌+◌, ◌-◌, ◌==◌, ltb, Bool, true, false, not, ◌&&◌, [], ◌∷◌, if◌then◌else◌, null}
use ksync.Kernel.Abi.{
  Call, Reply, Log, ke_acquire_spin_lock_raise_to_dpc, ke_release_spin_lock,
  ke_acquire_in_stack_queued_spin_lock, ke_release_in_stack_queued_spin_lock, ex_acquire_fast_mutex,
  ex_try_to_acquire_fast_mutex, ex_release_fast_mutex, ps_create_system_thread, ke_initialize_event,
  ke_set_event, ke_clear_event, ke_initialize_dpc, ke_initialize_threaded_dpc, ke_insert_queue_dpc,
  ke_reset_event, ke_initialize_semaphore, ke_release_semaphore, ke_wait_for_single_object,
  ke_wait_for_single_object_timeout,
}

-- Interrupt levels.
abbrev pub passive_level : ℕ
passive_level = 0

abbrev pub apc_level : ℕ
apc_level = 1

abbrev pub dispatch_level : ℕ
dispatch_level = 2

-- The level after a call, from the level before it and the level saved at the acquisition of the
-- lock or of the queue handle that the call releases.
abbrev pub level_after : ℕ → (ℕ → ℕ) → Call → Reply → ℕ
level_after i saved (ke_acquire_spin_lock_raise_to_dpc q) r = dispatch_level
level_after i saved (ke_release_spin_lock q j) r = j
level_after i saved (ke_acquire_in_stack_queued_spin_lock q h) r = dispatch_level
level_after i saved (ke_release_in_stack_queued_spin_lock h) r = saved h
level_after i saved (ex_acquire_fast_mutex q) r = apc_level
level_after i saved (ex_try_to_acquire_fast_mutex q) r = if r.ret == 0 then i else apc_level
level_after i saved (ex_release_fast_mutex q) r = saved q
level_after i saved _ r = i

abbrev pub saved_after : ℕ → (ℕ → ℕ) → Call → Reply → ℕ → ℕ
saved_after i saved (ke_acquire_in_stack_queued_spin_lock q h) r p = if h == p then i else saved p
saved_after i saved (ex_acquire_fast_mutex q) r p = if q == p then i else saved p
saved_after i saved (ex_try_to_acquire_fast_mutex q) r p =
    if not (r.ret == 0) && q == p then i else saved p
saved_after i saved _ r p = saved p

abbrev pub levels : ℕ → Log → ℕ × (ℕ → ℕ)
levels base [] = (base, λ _. base)
levels base (e ∷ l) =
    let before = levels base l in
    (level_after before.0 before.1 e.what e.reply, saved_after before.0 before.1 e.what e.reply)

-- The interrupt level after the calls of a log that began at level `base`.
abbrev pub irql : ℕ → Log → ℕ
irql base l = (levels base l).0

-- An event at `e`: whether it resets itself when a wait succeeds, and whether it is signaled.
abbrev pub event_after : ℕ → Bool × Bool → Call → Reply → Bool × Bool
event_after e s (ke_initialize_event q kind st) r =
    if q == e then (not (kind == 0), not (st == 0)) else s
event_after e s (ke_set_event q) r = if q == e then (s.0, true) else s
event_after e s (ke_clear_event q) r = if q == e then (s.0, false) else s
event_after e s (ke_reset_event q) r = if q == e then (s.0, false) else s
event_after e s (ke_wait_for_single_object q a) r =
    if q == e && s.0 && r.ret == 0 then (s.0, false) else s
event_after e s (ke_wait_for_single_object_timeout q a d) r =
    if q == e && s.0 && r.ret == 0 then (s.0, false) else s
event_after e s _ r = s

abbrev pub event_of : ℕ → Log → Bool × Bool
event_of e [] = (false, false)
event_of e (v ∷ l) = event_after e (event_of e l) v.what v.reply

abbrev pub signaled : ℕ → Log → Bool
signaled e l = (event_of e l).1

-- The context that a DPC was last initialised with, and the DPC that was last queued.
abbrev pub context_after : ℕ → ℕ → Call → Reply → ℕ
context_after d c (ke_initialize_dpc q x) r = if q == d then x else c
context_after d c (ke_initialize_threaded_dpc q x) r = if q == d then x else c
context_after d c _ r = c

abbrev pub context_of : ℕ → Log → ℕ
context_of d [] = null
context_of d (e ∷ l) = context_after d (context_of d l) e.what e.reply

abbrev pub queued_after : ℕ → Call → Reply → ℕ
queued_after d (ke_insert_queue_dpc q) r = q
queued_after d _ r = d

abbrev pub last_queued : Log → ℕ
last_queued [] = null
last_queued (e ∷ l) = queued_after (last_queued l) e.what e.reply

-- A semaphore at `p`: its count and its limit. A release beyond the limit raises an exception and
-- leaves the count; a wait that succeeds takes one.
abbrev pub sema_after : ℕ → ℕ × ℕ → Call → Reply → ℕ × ℕ
sema_after p s (ke_initialize_semaphore q count limit) r = if q == p then (count, limit) else s
sema_after p s (ke_release_semaphore q n wait) r =
    if q == p && not (ltb s.1 (s.0 + n)) then (s.0 + n, s.1) else s
sema_after p s (ke_wait_for_single_object q a) r =
    if q == p && r.ret == 0 then (s.0 - 1, s.1) else s
sema_after p s (ke_wait_for_single_object_timeout q a d) r =
    if q == p && r.ret == 0 then (s.0 - 1, s.1) else s
sema_after p s _ r = s

abbrev pub sema_of : ℕ → Log → ℕ × ℕ
sema_of p [] = (0, 0)
sema_of p (v ∷ l) = sema_after p (sema_of p l) v.what v.reply

-- The context that the thread behind the handle `h` was created with.
abbrev pub thread_context_after : ℕ → ℕ → Call → Reply → ℕ
thread_context_after h c (ps_create_system_thread x) r = if r.out == h then x else c
thread_context_after h c _ r = c

abbrev pub thread_context_of : ℕ → Log → ℕ
thread_context_of h [] = null
thread_context_of h (e ∷ l) = thread_context_after h (thread_context_of h l) e.what e.reply
