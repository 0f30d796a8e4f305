-- ===== src/Pulse.antt =====
-- dlls/winepulse.drv/11_17pulse.c: the buffer of a render stream, in children.
pub mod Defs
pub mod Bounds
pub mod Lent
pub mod Lends
pub mod Stays
pub mod Aligned
pub mod Agrees
pub mod Capture
pub mod Packets
mod Tests
