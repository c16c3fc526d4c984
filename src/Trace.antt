-- ===== src/Trace.antt =====
-- The trace session of src/common.c: what is fetched from the trace buffer of the hardware.
pub mod Buffer
pub mod Ring
pub mod Room
pub mod Fetch
mod Tests
