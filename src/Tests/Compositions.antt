-- ===== src/Tests/Compositions.antt =====
-- Constructors and error codes, control codes, the path of a request, and tasks in any order.
use ksync.Base.{
  Bool, false, ◌≡◌, ◌<◌, ◌==◌, ◌++◌, ◌^◌, if◌then◌else◌, refl, true, arith, List, [], ◌∷◌,
}
use ksync.Kernel.{Returns, Kernel, pure}
use ksync.Kernel.Abi
use ksync.Errors.Allocation
use ksync.Errors.Codes
use ksync.Utils.ControlCode
use ksync.Sync.{new_event, sema_new, property_new}
use ksync.Dpc
use ksync.Timer
use ksync.Timer.{timer_tag}
use ksync.WorkItem
use ksync.Object
use ksync.Tasks.{Turn, start, finish, dpc, detached}
use ksync.Tasks.Accounts.{Accounts}
use ksync.Tasks.Orders
use ksync.Samples.{test_delay_task, post_ten}
use ksync.Samples.WorkItems
use ksync.Samples.WorkItems.Whole
use ksync.Wdm.Accepted.{Accepts}
use ksync.Wdm.Delivery
use ksync.Tests.Kernels.{standard, standard-signs, answer}
use ksync.Tests.Devices.{standard-DeviceLaws, request, reports, no_routine, linked_property}

-- The pool has memory for a timer and for nothing else: the DPC of `Timer::new` fails.
abbrev room_for_timer : Kernel
room_for_timer l (Abi.ex_allocate_pool p s t) = answer (if t == timer_tag then 4096 else 0)
room_for_timer l _ = answer 0

constructors-Built_example :
    Returns (new_event 64 property_new room_for_timer []) (Allocation.Built (λ e. e.raw) 0 1 0 0 [])
    × Returns (sema_new 64 0 4 room_for_timer []) (Allocation.Built (λ s. s.raw) 0 1 0 0 [])
    × Returns (Dpc.new 64 room_for_timer []) (Allocation.Built (λ d. d.raw) 0 1 0 1 [])
    × Returns (Dpc.threaded_new 64 room_for_timer []) (Allocation.Built (λ d. d.raw) 0 1 0 1 [])
    × Returns
        (Timer.thread_new 64 true room_for_timer [])
        (Allocation.Built (λ t. t.raw) 4096 1 0 0 [])
    × Returns (WorkItem.new 900 room_for_timer []) (Allocation.Built (λ w. w.inner) 0 0 1 1 [])
    × Returns (WorkItem.post 900 room_for_timer []) (Allocation.Built (λ p. p.0) 0 0 1 1 [])
    × Returns
        (Timer.new 64 64 true room_for_timer [])
        (Allocation.BuiltTimer 4096 (Allocation.second_pool room_for_timer [] 64 64 true) [])
constructors-Built_example =
    Allocation.constructors-Built 64 64 0 4 900 property_new true room_for_timer []

standard-CodeLaws : Codes.CodeLaws standard
standard-CodeLaws = record { signs = standard-signs; open_nonnull = λ l o a t e. omega arith }

abbrev some_handle : Object.ObjectHandle
some_handle = record { raw = 12 }

abbrev some_object : Object.KernelObject
some_object = record { raw = 500 }

conversions-Codes_example :
    Codes.Codes (Object.from_process_handle 7 12 1 standard [])
    × Codes.Codes (Object.from_thread_handle 7 12 1 standard [])
    × Codes.Codes (Object.from_process_id 4368 standard [])
    × Codes.Codes (Object.from_thread_id 4368 standard [])
    × Codes.Codes (Object.from_handle some_handle standard [])
    × Codes.Codes (Object.from_process 7 12 1 standard [])
    × Codes.Codes (Object.from_thread 7 12 1 standard [])
    × Codes.Codes (Object.from_kobject some_object standard [])
conversions-Codes_example =
    Codes.conversions-Codes standard standard-CodeLaws [] 7 12 1 4368 some_handle some_object

-- FILE_DEVICE_UNKNOWN, function 0x800, METHOD_OUT_DIRECT, FILE_READ_ACCESS.
ctl_code-fields_example :
    (ControlCode.ctl_code 0x22 0x800 2 1 < 2 ^ 32)
    × (ControlCode.fields (ControlCode.ctl_code 0x22 0x800 2 1)
        ≡ record { dev_type = 0x22; access = 1; function = 0x800; method = 2 })
ctl_code-fields_example =
    ControlCode.ctl_code-fields 0x22 0x800 2 1 (omega arith) (omega arith) (omega arith)
      (omega arith)

read_code : ControlCode.ctl_code 0x22 0x800 2 1 ≡ 0x22_6002
unfolding ControlCode.ctl_code ControlCode.shl
read_code = refl

-- The handler reports 17 bytes; a routine of the kernel answers with its own address.
abbrev handlers : Delivery.Handlers
handlers h irp = reports irp

abbrev others : Delivery.Routines
others routine irp = pure (routine, irp)

start-Delivered_example :
    Returns (Delivery.start 4000 900 8000 no_routine linked_property 40 standard []) (λ r _.
      Delivery.Delivered handlers others 4000 no_routine 40 14 request standard standard [] r)
start-Delivered_example =
    Delivery.start-Delivered handlers others 4000 900 8000 no_routine linked_property 40 14 request
      standard standard [] [] standard-DeviceLaws (omega arith) (omega arith) (omega arith)
      (omega arith) (omega arith)

-- The standard kernel refuses no device and no link.
standard-Accepts : Accepts standard
standard-Accepts = record { devices = λ l d s n t c. refl; links = λ l s n. refl }

-- Some of the delays run before the rest is started.
abbrev some_turns : List Turn
some_turns =
    test_delay_task
    ++ finish 3 ∷ start (dpc 64) ∷ start detached ∷ finish 0 ∷ finish 99 ∷ finish 12 ∷ post_ten 900

-- The main thread drops the work item while the closure runs.
abbrev late_call : List Bool
late_call = false ∷ true ∷ []
