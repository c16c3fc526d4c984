-- ===== src/Decode.antt =====
-- What src/common.c and src/stalker.c do with the decoder: Backend, Dispatch and Start are the code.
pub mod Backend
pub mod Dispatch
pub mod Start
pub mod Runs
pub mod Overflow
pub mod Started
pub mod Unnoticed
pub mod Samples
mod Tests
