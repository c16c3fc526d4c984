-- ===== src/Proxy.antt =====
-- afl-cs-proxy with the Stalker decoder, src/cs-proxy.c: what it does for each test case.
pub mod Input
pub mod State
pub mod Child
pub mod TestCase
pub mod Keeps
pub mod Attempts
pub mod Quiet
pub mod Waits
pub mod Last
pub mod Protocol
pub mod Main
pub mod Turns
pub mod Broadcast
mod Tests
