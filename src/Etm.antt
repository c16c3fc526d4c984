-- ===== src/Etm.antt =====
-- The programming of the trace units and of the trace path, src/config.c, src/stalker.c and
-- enable_cs_trace of src/common.c. Csal and Commands are the ground, Range to Gate are the code.
pub mod Csal
pub mod Commands
pub mod Range
pub mod Configure
pub mod Paths
pub mod Gate
pub mod Units
pub mod Effects
pub mod Programming
pub mod Windows
pub mod Cycle
pub mod Setup
pub mod Armed
pub mod Opened
pub mod Disabled
pub mod Sessions
pub mod Reads
pub mod Trials
mod Tests
