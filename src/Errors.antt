-- ===== src/Errors.antt =====
-- How the functions of the crate that return a `Result` fail: dpc.rs, event.rs, handle.rs, kobject.rs,
-- mutex.rs, ntstatus.rs, sema.rs, thread.rs, timer.rs and workitem.rs.
pub mod Allocation
pub mod Codes
