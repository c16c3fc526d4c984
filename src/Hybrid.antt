-- ===== src/Hybrid.antt =====
-- Stalker's hybrid coverage in the proxy, src/hybrid.c.
pub mod Bitmap
pub mod Checksum
pub mod State
pub mod Passes
