-- ===== src/ServerFsync.antt =====
-- server/fsync_pro10.c, the server's half of fsync.
pub mod Defs
pub mod FreeMap
pub mod Invariant
pub mod Init
pub mod TakeIndex
pub mod Search
pub mod Alloc
pub mod Free
pub mod Roundtrip
pub mod Objects
pub mod Mutexes
pub mod Lifetime
pub mod Cleanup
pub mod Tests
mod ObjectTests
