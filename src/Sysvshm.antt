-- ===== src/Sysvshm.antt =====
-- path/android_sysvshm.c, System V shared memory over a server of memory files.
pub mod Defs
pub mod Lookup
pub mod Operations
pub mod Removals
pub mod Lifecycle
mod Tests
