-- ===== src/Maps.antt =====
-- The executable mappings of the target, src/utils.c.
pub mod Select
pub mod Library
mod Tests
