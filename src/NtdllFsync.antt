-- ===== src/NtdllFsync.antt =====
-- dlls/ntdll/unix/fsync_pro10.c, the half of fsync in each process.
pub mod Cache
pub mod Defs
pub mod References
pub mod Learns
pub mod Operations
pub mod Atomic
pub mod Wait
pub mod Grab
pub mod WaitAny
pub mod Progress
pub mod PutBack
pub mod WaitAll
pub mod PutsBack
pub mod GrabsAll
pub mod Completes
pub mod Abandoned
mod Tests
mod WaitAllTests
