-- ===== src/Tests.antt =====
-- The theorems at concrete inputs, over a kernel that behaves as documented.
pub mod Kernels
pub mod Cells
pub mod Locks
pub mod Objects
pub mod Work
pub mod Timers
pub mod Devices
pub mod Threads
pub mod Compositions
pub mod Signals
