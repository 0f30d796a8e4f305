-- ===== src/Esync.antt =====
-- server/esync_pro10.c and dlls/ntdll/unix/esync_pro10.c, synchronization objects over eventfds.
pub mod Defs
pub mod Agreement
mod Events
mod Counting
pub mod Invariant
pub mod WaitAll
pub mod Pulse
pub mod Growth
pub mod Stalls
pub mod Grabs
mod Tests
