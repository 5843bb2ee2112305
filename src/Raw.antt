-- ===== src/Raw.antt =====
-- raw.rs: the traits `AsRawObject` and `AsRawHandle`, with their implementations in event.rs, sema.rs,
-- timer.rs, kobject.rs and handle.rs; and the waits of `Dispatchable` (kobject.rs), which reach an object
-- through the first.
use ksync.Base.{◌^◌, ◌-◌, ℕ, ◌≡◌, Bool, true, false, [], ◌∷◌, Result, ok, err, arith}
use ksync.Kernel.{Kernel, Log, M, pure, Returns, ◌>>=◌}
use ksync.Kernel.Abi.{
  Call, ke_initialize_event, ke_initialize_semaphore, ke_initialize_timer,
  ke_wait_for_single_object, ke_wait_for_single_object_timeout,
}
use ksync.NtStatus.{NtError, new}
use ksync.Object.{KernelObject, ObjectHandle}
use ksync.Object.Wait.{WaitResult, wait, wait_for}
use ksync.Sync.{Event, Semaphore, EventProperty, new_event, sema_new}
use ksync.Timer
use ksync.Timer.{Timer, HrTimer, ThreadTimer, thread_new}
use ksync.Dpc

pub record AsRawObject (T : Type 0) : Type 0 where
  pub as_raw : T → ℕ

pub record AsRawHandle (T : Type 0) : Type 0 where
  pub raw_handle : T → ℕ

instance abbrev pub event_object : AsRawObject Event
event_object = record { as_raw = λ self. self.raw }

instance abbrev pub semaphore_object : AsRawObject Semaphore
semaphore_object = record { as_raw = λ self. self.raw }

instance abbrev pub timer_object : AsRawObject Timer
timer_object = record { as_raw = λ self. self.inner }

-- `ThreadHRTimer` is an `HrTimer` here too.
instance abbrev pub hr_timer_object : AsRawObject HrTimer
hr_timer_object = record { as_raw = λ self. self.raw }

instance abbrev pub thread_timer_object : AsRawObject ThreadTimer
thread_timer_object = record { as_raw = λ self. self.raw }

instance abbrev pub kernel_object : AsRawObject KernelObject
kernel_object = record { as_raw = λ self. self.raw }

instance abbrev pub object_handle : AsRawHandle ObjectHandle
object_handle = record { raw_handle = λ self. self.raw }

-- constants.rs: the pseudo handles of the current process, thread and session, as bit patterns.
abbrev pub nt_current_process : ℕ
nt_current_process = 2 ^ 64 - 1

abbrev pub zw_current_process : ℕ
zw_current_process = nt_current_process

abbrev pub nt_current_thread : ℕ
nt_current_thread = 2 ^ 64 - 2

abbrev pub zw_current_thread : ℕ
zw_current_thread = nt_current_thread

abbrev pub nt_current_session : ℕ
nt_current_session = 2 ^ 64 - 3

abbrev pub zw_current_session : ℕ
zw_current_session = nt_current_session

-- `Dispatchable::wait` and `wait_for`, which every one of these objects inherits.
unfoldable pub wait_on :
    {T : Type 0} ⦃object : AsRawObject T⦄ → T → (alertable : Bool) → M WaitResult
unfolding wait
wait_on ⦃object⦄ self alertable = wait (object.as_raw self) alertable

unfoldable pub wait_on_for :
    {T : Type 0} ⦃object : AsRawObject T⦄ → T → (nanos : ℕ) → (alertable : Bool) → M WaitResult
unfolding wait_for
wait_on_for ⦃object⦄ self nanos alertable = wait_for (object.as_raw self) nanos alertable

-- The object that was initialised last, and the one that was waited for last.
abbrev initialized_after : ℕ → Call → ℕ
initialized_after p (ke_initialize_event q kind state) = q
initialized_after p (ke_initialize_semaphore q count limit) = q
initialized_after p (ke_initialize_timer q kind) = q
initialized_after p _ = p

abbrev pub last_initialized : Log → ℕ
last_initialized [] = 0
last_initialized (e ∷ l) = initialized_after (last_initialized l) e.what

abbrev awaited_after : ℕ → Call → ℕ
awaited_after p (ke_wait_for_single_object q alertable) = q
awaited_after p (ke_wait_for_single_object_timeout q alertable due) = q
awaited_after p _ = p

abbrev pub last_awaited : Log → ℕ
last_awaited [] = 0
last_awaited (e ∷ l) = awaited_after (last_awaited l) e.what

-- An object is made and waited for; the result is whether it could be made.
unfoldable pub made_and_awaited :
    {T : Type 0} ⦃object : AsRawObject T⦄ → M (Result T NtError) → (nanos : ℕ) → M Bool
made_and_awaited create nanos = do
  r ← create
  elim r [
    | err e ↦ pure false
    | ok self ↦ (do first ← wait_on self false; second ← wait_on_for self nanos false; pure true)
  ]

-- Where the object was made, it is the one that is waited for.
abbrev pub Awaited : Bool → Log → Type 0
Awaited true l' = last_awaited l' ≡ last_initialized l'
Awaited false l' = Unit

-- An event, a semaphore, a timer and a threaded timer are waited for, through `AsRawObject`, at the
-- address that their constructor had the kernel initialise.
pub made_and_awaited-agree :
    (size dpc_size count limit nanos : ℕ) (prop : EventProperty) (synch : Bool) (k : Kernel)
    (l : Log)
    → Returns (made_and_awaited (new_event size prop) nanos k l) Awaited
      × Returns (made_and_awaited (sema_new size count limit) nanos k l) Awaited
      × Returns (made_and_awaited (Timer.new size dpc_size synch) nanos k l) Awaited
      × Returns (made_and_awaited (thread_new size synch) nanos k l) Awaited
unfolding made_and_awaited wait_on wait_on_for new_event sema_new Timer.new Dpc.new thread_new new
made_and_awaited-agree size dpc_size count limit nanos prop synch k l =
    (ground arith, ground arith, ground arith, ground arith)
