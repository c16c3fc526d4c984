-- ===== src/Forksrv.antt =====
-- The fork server in the target, libforksrv/libforksrv.c: Server and Scrub are the code.
pub mod Server
pub mod Scrub
pub mod Exchange
pub mod Served
pub mod Relayed
pub mod Clean
pub mod Samples
mod Tests
