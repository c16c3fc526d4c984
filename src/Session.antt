-- ===== src/Session.antt =====
-- The two threads of a trace session, src/common.c: Machine is the code, and the other children prove
-- what any interleaving of the threads does.
pub mod Machine
pub mod Fits
pub mod Returns
pub mod Progress
pub mod Hang
mod Tests
