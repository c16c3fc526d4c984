-- ===== src/Cpu.antt =====
-- The choice of a CPU in src/utils.c: Choice is the code, Free and Preferred hold proofs.
pub mod Choice
pub mod Free
pub mod Preferred
mod Tests
