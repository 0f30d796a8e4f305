-- ===== src/ServerInproc.antt =====
-- server/inproc_sync_pro11.c, in children.
pub mod Device
pub mod Syncs
pub mod Isolated
pub mod Operations
pub mod Lifetime
mod Tests
